-- ===== src/Shared/Bloco/Campos.antt =====
-- The fields of a block as they are printed, and what the loop over the lines makes of them.
use gestao_restaurante.Base.{
  ℕ, ◌≡◌, ◌≢◌, refl, sym, ap, ◌∙◌, false, List, [], ◌∷◌, ◌++◌, map, reverse, append_assoc,
  append-nil, ◌==◌, All, All-append, arith,
}
use mathlib.Core.List.{reverse-append, reverse-reverse}
use gestao_restaurante.Base.Text.{Texto, codes, is_space, trim_start, trim, starts_with}
use gestao_restaurante.Shared.Bloco.{Leitura, linhas_from, acumular, ler_linha, ler_linhas}

-- Lines joined by line ends: the rest after the first line, and all of them.
abbrev pub cauda : List Texto → Texto
cauda [] = []
cauda (x ∷ xs) = 10 ∷ (x ++ cauda xs)

abbrev pub unir_linhas : List Texto → Texto
unir_linhas [] = []
unir_linhas (x ∷ xs) = x ++ cauda xs

-- The first code unit is no white space.
abbrev pub StartsClean : Texto → Type 0
StartsClean [] = ⊥
StartsClean (c ∷ s) = is_space c ≡ false

-- A text that `trim` keeps, in one line.
pub record IsField (s : Texto) : Type 0 where
  pub starts : StartsClean s
  pub ends : StartsClean (reverse s)
  pub one_line : All (λ c. c ≢ 10) s

trim_start-clean : (s : Texto) → StartsClean s → trim_start s ≡ s
unfolding trim_start
trim_start-clean [] h = refl
trim_start-clean (c ∷ s) h = rw h

pub StartsClean-append : (s t : Texto) → StartsClean s → StartsClean (s ++ t)
StartsClean-append [] t h = absurd h
StartsClean-append (c ∷ s) t h = h

trim-clean : (s : Texto) → StartsClean s → StartsClean (reverse s) → trim s ≡ s
unfolding trim
trim-clean s h k = rw (trim_start-clean s h, trim_start-clean (reverse s) k) (reverse-reverse s)

-- A label in front of a field.
trim-label : (p s : Texto) → StartsClean p → StartsClean (reverse s) → trim (p ++ s) ≡ p ++ s
trim-label p s h k =
    trim-clean (p ++ s) (StartsClean-append p s h)
      (rw (reverse-append p s) (StartsClean-append (reverse s) (reverse p) k))

trim-space : (s : Texto) → trim (32 ∷ s) ≡ trim s
unfolding trim trim_start
trim-space s = refl

module _ (l : Leitura) (s : Texto) (f : IsField s) where
  trim_field : trim (32 ∷ s) ≡ s
  trim_field = trim-space s ∙ trim-clean s f.starts f.ends

  ler_linha-event : ler_linha (codes "event: " ++ s) l ≡ record l { event_type = s }
  unfolding ler_linha starts_with
  ler_linha-event = rw (trim-label (codes "event: ") s refl f.ends) (rw trim_field)

  ler_linha-data :
      ler_linha (codes "data: " ++ s) l ≡ record l { data_payload = acumular l.data_payload s }
  unfolding ler_linha starts_with
  ler_linha-data = rw (trim-label (codes "data: ") s refl f.ends) (rw trim_field)

  ler_linha-id : ler_linha (codes "id: " ++ s) l ≡ record l { correlation_id = s }
  unfolding ler_linha starts_with
  ler_linha-id = rw (trim-label (codes "id: ") s refl f.ends) (rw trim_field)

-- A field of a block, as it is printed.
pub data Campo : Type 0 where
  event data_ id : Texto → Campo

abbrev pub linha_de : Campo → Texto
linha_de (event s) = codes "event: " ++ s
linha_de (data_ s) = codes "data: " ++ s
linha_de (id s) = codes "id: " ++ s

abbrev pub texto_de : Campo → Texto
texto_de (event s) = s
texto_de (data_ s) = s
texto_de (id s) = s

-- The texts of the fields of one kind, in order.
abbrev pub tipos : List Campo → List Texto
tipos [] = []
tipos (event s ∷ cs) = s ∷ tipos cs
tipos (_ ∷ cs) = tipos cs

abbrev pub dados : List Campo → List Texto
dados [] = []
dados (data_ s ∷ cs) = s ∷ dados cs
dados (_ ∷ cs) = dados cs

abbrev pub ids : List Campo → List Texto
ids [] = []
ids (id s ∷ cs) = s ∷ ids cs
ids (_ ∷ cs) = ids cs

-- The last text, or `padrao` where there is none.
abbrev pub ultimo : Texto → List Texto → Texto
ultimo padrao [] = padrao
ultimo padrao (x ∷ xs) = ultimo x xs

ler_linhas-cons :
    (x : Texto) (xs : List Texto) (l : Leitura)
    → ler_linhas (x ∷ xs) l ≡ ler_linhas xs (ler_linha x l)
unfolding ler_linhas
ler_linhas-cons x xs l = refl

ler_linhas-nil : (l : Leitura) → ler_linhas [] l ≡ l
unfolding ler_linhas
ler_linhas-nil l = refl

acumular-cons : (p : Texto) (d : Texto) → StartsClean p → acumular p d ≡ p ++ 10 ∷ d
acumular-cons [] d h = absurd h
acumular-cons (c ∷ p) d h = refl

-- The payload with more lines.
abbrev pub somar : Texto → List Texto → Texto
somar p [] = p
somar p (x ∷ xs) = somar (acumular p x) xs

-- A field is a line that `trim` keeps.
abbrev pub IsCampo : Campo → Type 0
IsCampo c = IsField (texto_de c)

-- The loop over the lines keeps the last type, the last id and all of the payload.
pub ler_linhas-campos :
    (cs : List Campo) (l : Leitura)
    → All IsCampo cs
    → ler_linhas (map linha_de cs) l ≡ record {
      event_type = ultimo l.event_type (tipos cs);
      data_payload = somar l.data_payload (dados cs);
      correlation_id = ultimo l.correlation_id (ids cs);
      batimentos = l.batimentos;
    }
ler_linhas-campos [] l h = ler_linhas-nil l
ler_linhas-campos (event s ∷ cs) l (h, hs) =
    rw (ler_linhas-cons, ler_linha-event l s h)
      (ler_linhas-campos cs (record l { event_type = s }) hs)
ler_linhas-campos (data_ s ∷ cs) l (h, hs) =
    rw (ler_linhas-cons, ler_linha-data l s h)
      (ler_linhas-campos cs (record l { data_payload = acumular l.data_payload s }) hs)
ler_linhas-campos (id s ∷ cs) l (h, hs) =
    rw (ler_linhas-cons, ler_linha-id l s h)
      (ler_linhas-campos cs (record l { correlation_id = s }) hs)

pub somar-cauda : (p : Texto) (xs : List Texto) → StartsClean p → somar p xs ≡ p ++ cauda xs
somar-cauda p [] h = sym (append-nil p)
somar-cauda p (x ∷ xs) h = rw (acumular-cons p x h) (
    somar-cauda (p ++ 10 ∷ x) xs (StartsClean-append p (10 ∷ x) h)
    ∙ append_assoc p (10 ∷ x) (cauda xs))

abbrev OneLine : Texto → Type 0
OneLine = All (λ c. c ≢ 10)

eq_false : (c : ℕ) → c ≢ 10 → (c == 10) ≡ false
eq_false c h = ground arith

linhas_from-cauda :
    (xs : List Texto) (atual x : Texto)
    → OneLine x
    → All OneLine xs
    → linhas_from atual (x ++ cauda xs) ≡ (atual ++ x) ∷ xs
unfolding linhas_from
linhas_from-cauda [] atual [] h hs = rw (append-nil atual)
linhas_from-cauda (y ∷ ys) atual [] h (k, ks) =
    rw (append-nil atual) (ap (◌∷◌ atual) (linhas_from-cauda ys [] y k ks))
linhas_from-cauda xs atual (c ∷ x) (h, hs) ks = rw (eq_false c h) (
    linhas_from-cauda xs (atual ++ c ∷ []) x hs ks
    ∙ ap (λ p. p ∷ xs) (append_assoc atual (c ∷ []) x))

linha_de-OneLine : (c : Campo) → IsCampo c → OneLine (linha_de c)
linha_de-OneLine (event s) h = All-append _ (codes "event: ") s (omega arith) h.one_line
linha_de-OneLine (data_ s) h = All-append _ (codes "data: ") s (omega arith) h.one_line
linha_de-OneLine (id s) h = All-append _ (codes "id: ") s (omega arith) h.one_line

linhas-OneLine : (cs : List Campo) → All IsCampo cs → All OneLine (map linha_de cs)
linhas-OneLine [] h = tt
linhas-OneLine (c ∷ cs) (h, hs) = (linha_de-OneLine c h, linhas-OneLine cs hs)

-- The lines of a block are those that were joined.
pub linhas_from-campos :
    (c : Campo) (cs : List Campo)
    → All IsCampo (c ∷ cs)
    → linhas_from [] (unir_linhas (map linha_de (c ∷ cs))) ≡ map linha_de (c ∷ cs)
linhas_from-campos c cs (h, hs) =
    linhas_from-cauda (map linha_de cs) [] (linha_de c) (linha_de-OneLine c h)
      (linhas-OneLine cs hs)
