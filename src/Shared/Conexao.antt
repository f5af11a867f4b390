-- ===== src/Shared/Conexao.antt =====
-- frontend/shared/hooks/useConnectionStore.ts: whether the API answers, and the probing that finds
-- out. A probe is two events, its start and its answer.
pub mod Probing
mod Tests
use gestao_restaurante.Base.{
  ℕ, ◌+◌, ◌-◌, Bool, true, false, not, ◌&&◌, Option, none, some, List, [], ◌∷◌, leb, ltb, ◌==◌,
  if◌then◌else◌,
}
use gestao_restaurante.Base.Text.{Texto, codes}

-- The store, the module's timer (whether it runs), and how many probes await their answer.
pub record ConnectionState : Type 0 where
  pub is_api_online : Bool
  pub is_checking : Bool
  pub last_checked : Option ℕ
  pub last_error_message : Option Texto
  pub auto_reconnect_timer : Bool
  pub sondagens : ℕ

abbrev pub inicial : ConnectionState
inicial = record {
  is_api_online = true;
  is_checking = false;
  last_checked = none;
  last_error_message = none;
  auto_reconnect_timer = false;
  sondagens = 0;
}

-- `errorMessage || d`
abbrev pub mensagem : Option Texto → Texto → Texto
mensagem none d = d
mensagem (some []) d = d
mensagem (some (c ∷ s)) d = c ∷ s

-- At the time `agora`.
unfoldable pub set_api_online : Bool → Option Texto → ℕ → ConnectionState → ConnectionState
set_api_online online error_message agora c =
    let told = record c {
      is_api_online = online;
      last_checked = some agora;
      last_error_message =
          if online
          then none
          else some (mensagem error_message (codes "Servidor inacessível no momento"));
    } in
    if not online && not c.auto_reconnect_timer
    then record told { auto_reconnect_timer = true }
    else if online && c.auto_reconnect_timer
    then record told { auto_reconnect_timer = false }
    else told

-- `checkConnection()` up to its request; a call during another returns at once.
unfoldable pub check_connection : ConnectionState → ConnectionState
check_connection c =
    if c.is_checking then c else record c { is_checking = true; sondagens = c.sondagens + 1 }

-- The answer to a probe: a status, or the message of an error.
pub data Sondagem : Type 0 where
  status : ℕ → Sondagem
  erro : Texto → Sondagem

abbrev pub com_sucesso : Sondagem → Bool
com_sucesso (status n) = leb 200 n && ltb n 300
com_sucesso (erro msg) = false

-- The message for a status that is no success, with the number's text.
abbrev pub motivo : (ℕ → Texto) → Sondagem → Texto
motivo texto_de (status n) = texto_de n
motivo texto_de (erro msg) = msg

-- The rest of `checkConnection()`.
unfoldable pub concluir : (ℕ → Texto) → Sondagem → ℕ → ConnectionState → ConnectionState
unfolding set_api_online
concluir texto_de r agora c =
    let set_online =
      if com_sucesso r
      then set_api_online true none agora c
      else set_api_online false (some (motivo texto_de r)) agora c in
    record set_online {
      is_checking = false;
      last_checked = some agora;
      sondagens = c.sondagens - 1;
    }

-- What happens to the store: the interceptors report, the timer or the user probes, a probe ends.
pub data Evento : Type 0 where
  informar : Bool → Option Texto → Evento
  sondar : Evento
  timer : Evento
  terminar : Sondagem → Evento

unfoldable pub passo : (ℕ → Texto) → Evento → ℕ → ConnectionState → ConnectionState
unfolding check_connection concluir set_api_online
passo texto_de (informar online msg) agora c = set_api_online online msg agora c
passo texto_de sondar agora c = check_connection c
passo texto_de timer agora c = if c.auto_reconnect_timer then check_connection c else c
passo texto_de (terminar r) agora c = if c.sondagens == 0 then c else concluir texto_de r agora c

-- A history of events with their times.
pub executar : (ℕ → Texto) → List (Evento × ℕ) → ConnectionState → ConnectionState
executar texto_de [] c = c
executar texto_de ((e, agora) ∷ es) c = executar texto_de es (passo texto_de e agora c)
