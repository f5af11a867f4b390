-- ===== src/Painel/Iniciais.antt =====
-- The initials of the panel's header and those that a login stores.
use gestao_restaurante.Base.{
  ℕ, zero, suc, ◌≡◌, refl, ap, not, some, List, [], ◌∷◌, map, filter, take,
}
use gestao_restaurante.Base.Text.{Texto, codes, vazio}
use gestao_restaurante.Auth.Resposta.{partes, upper, primeira, juntar, ou_texto, iniciais_login}
use gestao_restaurante.Painel.{letra, iniciais_gestor}

-- The first letters of the joined ones are those of the first pieces that are not empty.
primeiras :
    (n : ℕ) (ps : List Texto)
    → juntar (map letra (take n (filter (λ p. not (vazio p)) ps)))
      ≡ map upper (take n (juntar (map primeira ps)))
unfolding juntar
primeiras zero ps = refl
primeiras (suc n) [] = refl
primeiras (suc n) ([] ∷ ps) = primeiras (suc n) ps
primeiras (suc n) ((c ∷ s) ∷ ps) = ap (λ t. upper c ∷ t) (primeiras n ps)

-- For every name, the header shows the initials that a login stores for it, or for "Gestor" where
-- the name is empty, and GR where there are none, as for a name of blanks: dropping the empty pieces
-- before two are taken is the same as joining the letters first.
pub iniciais_gestor-iniciais_login :
    (nome : Texto)
    → iniciais_gestor nome
      ≡ ou_texto (some (iniciais_login (ou_texto (some nome) (codes "Gestor")))) (codes "GR")
unfolding iniciais_gestor iniciais_login
iniciais_gestor-iniciais_login nome =
    ap (λ t. ou_texto (some t) (codes "GR"))
      (primeiras 2 (partes (ou_texto (some nome) (codes "Gestor"))))
