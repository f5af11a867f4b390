-- ===== src/Shared/Conexao/Probing.antt =====
-- The timer polls exactly while the API is offline, and one probe is out at most.
use gestao_restaurante.Base.{
  ℕ, ◌-◌, ◌≡◌, refl, inl, inr, Bool, true, false, not, Option, none, some, List, [], ◌∷◌, ◌==◌,
  if◌then◌else◌, Bool-cases, arith,
}
use gestao_restaurante.Base.Text.{Texto}
use gestao_restaurante.Shared.Conexao.{
  ConnectionState, inicial, set_api_online, check_connection, Sondagem, status, com_sucesso, motivo,
  concluir, Evento, informar, sondar, timer, terminar, passo, executar,
}

abbrev pub presente : Option Texto → Bool
presente none = false
presente (some m) = true

-- The timer runs exactly while the API is offline, an error is told exactly then, and the flag of a
-- check counts the probes that are out.
pub record IsConsistent (c : ConnectionState) : Type 0 where
  pub polls : c.auto_reconnect_timer ≡ not c.is_api_online
  pub told : presente c.last_error_message ≡ not c.is_api_online
  pub one_probe : c.sondagens ≡ (if c.is_checking then 1 else 0)

set_api_online_lem :
    (online : Bool) (msg : Option Texto) (agora : ℕ) (c : ConnectionState)
    → IsConsistent c
    → IsConsistent (set_api_online online msg agora c)
unfolding set_api_online
set_api_online_lem online msg agora c h = record {
  polls = ground (arith, h.polls);
  told = ground arith;
  one_probe = ground (arith, h.one_probe);
}

check_connection_lem : (c : ConnectionState) → IsConsistent c → IsConsistent (check_connection c)
unfolding check_connection
check_connection_lem c h = record {
  polls = ground (arith, h.polls);
  told = ground (arith, h.told);
  one_probe = ground (arith, h.one_probe);
}

concluir_lem :
    (texto_de : ℕ → Texto) (r : Sondagem) (agora : ℕ) (c : ConnectionState)
    → IsConsistent c
    → IsConsistent (concluir texto_de r agora c)
unfolding concluir
concluir_lem texto_de r agora c h = elim (Bool-cases (com_sucesso r)) [
  | inl e ↦ rw e (done (set_api_online_lem true none agora c h))
  | inr e ↦ rw e (done (set_api_online_lem false (some (motivo texto_de r)) agora c h))
]
  where
    few : c.sondagens - 1 ≡ 0
    few = ground (arith, h.one_probe)

    done :
        {d : ConnectionState}
        → IsConsistent d
        → IsConsistent (record d {
          is_checking = false;
          last_checked = some agora;
          sondagens = c.sondagens - 1;
        })
    done k = record { polls = k.polls; told = k.told; one_probe = few }

either :
    (b : Bool) (x y : ConnectionState)
    → IsConsistent x
    → IsConsistent y
    → IsConsistent (if b then x else y)
either true x y h k = h
either false x y h k = k

passo_lem :
    (texto_de : ℕ → Texto) (e : Evento) (agora : ℕ) (c : ConnectionState)
    → IsConsistent c
    → IsConsistent (passo texto_de e agora c)
unfolding passo
passo_lem texto_de (informar online msg) agora c h = set_api_online_lem online msg agora c h
passo_lem texto_de sondar agora c h = check_connection_lem c h
passo_lem texto_de timer agora c h = either c.auto_reconnect_timer _ c (check_connection_lem c h) h
passo_lem texto_de (terminar r) agora c h =
    either (c.sondagens == 0) c _ h (concluir_lem texto_de r agora c h)

executar_lem :
    (texto_de : ℕ → Texto) (es : List (Evento × ℕ)) (c : ConnectionState)
    → IsConsistent c
    → IsConsistent (executar texto_de es c)
unfolding executar
executar_lem texto_de [] c h = h
executar_lem texto_de ((e, agora) ∷ es) c h =
    executar_lem texto_de es (passo texto_de e agora c) (passo_lem texto_de e agora c h)

-- Whatever happens from the start on: the background timer runs exactly while the API is offline, an
-- error message is told exactly then, and at most one probe is out, which the flag of a check says.
pub executar-inicial-IsConsistent :
    (texto_de : ℕ → Texto) (es : List (Evento × ℕ)) → IsConsistent (executar texto_de es inicial)
executar-inicial-IsConsistent texto_de es =
    executar_lem texto_de es inicial (record { polls = refl; told = refl; one_probe = refl })

-- In a consistent state that is offline, the timer's next call and an answer with a status from 200
-- to 299 bring the API back: online, no error, no timer, no probe out.
pub timer-recovers :
    (texto_de : ℕ → Texto) (n t u : ℕ) (c : ConnectionState)
    → IsConsistent c
    → c.is_api_online ≡ false
    → com_sucesso (status n) ≡ true
    → passo texto_de (terminar (status n)) u (passo texto_de timer t c) ≡ record {
      is_api_online = true;
      is_checking = false;
      last_checked = some u;
      last_error_message = none;
      auto_reconnect_timer = false;
      sondagens = 0;
    }
unfolding passo concluir check_connection set_api_online
timer-recovers texto_de n t u c h off ok = ground (arith, h.one_probe, h.polls)
