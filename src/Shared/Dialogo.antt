-- ===== src/Shared/Dialogo.antt =====
-- frontend/shared/components/AppDialog: the dialogs. The store of dialogStore.ts, the kinds of
-- appDialog.ts, and the presses that AppDialogHost.tsx takes. A callback is a number; a press starts
-- the closing animation, and its end closes the dialog and calls the callback.
pub mod Toques
mod Tests
use gestao_restaurante.Base.{
  ℕ, zero, suc, Bool, true, false, not, ◌||◌, Option, none, some, List, [], ◌∷◌, ◌++◌, length, ltb,
  get_elem?, any, if◌then◌else◌,
}
use gestao_restaurante.Base.Text.{Texto, codes, vazio, includes, to_lower_case}

pub data DialogType : Type 0 where
  success error warning info : DialogType

pub data EstiloBotao : Type 0 where
  padrao cancel destructive : EstiloBotao

pub record DialogButton : Type 0 where
  pub text : Texto
  pub style : EstiloBotao
  pub on_press : Option ℕ

pub record DialogOptions : Type 0 where
  pub tipo : Option DialogType
  pub title : Texto
  pub message : Option Texto
  pub confirm_text : Option Texto
  pub cancel_text : Option Texto
  pub on_confirm : Option ℕ
  pub on_cancel : Option ℕ
  pub buttons : List DialogButton
  pub allow_outside_click : Bool

-- The store, the animations of closing with their callbacks, oldest first, and the callbacks that
-- have been called, newest first.
pub record Dialogos : Type 0 where
  pub is_open : Bool
  pub options : Option DialogOptions
  pub saindo : List (Option ℕ)
  pub chamados : List ℕ

abbrev pub inicial : Dialogos
inicial = record { is_open = false; options = none; saindo = []; chamados = [] }

abbrev pub abrir_dialogo : DialogOptions → Dialogos → Dialogos
abrir_dialogo o d = record d { is_open = true; options = some o }

abbrev pub fechar_dialogo : Dialogos → Dialogos
fechar_dialogo d = record d { is_open = false; options = none }

abbrev simples : DialogType → Texto → Bool → Texto → Option Texto → Option ℕ → DialogOptions
simples tipo confirma fora title message on_confirm = record {
  tipo = some tipo;
  title = title;
  message = message;
  confirm_text = some confirma;
  cancel_text = none;
  on_confirm = on_confirm;
  on_cancel = none;
  buttons = [];
  allow_outside_click = fora;
}

-- `AppDialog.success`, `error`, `warning` and `info`.
abbrev pub dialogo_success : Texto → Option Texto → Option ℕ → DialogOptions
dialogo_success = simples success (codes "OK") true

abbrev pub dialogo_error : Texto → Option Texto → Option ℕ → DialogOptions
dialogo_error = simples error (codes "Entendido") false

abbrev pub dialogo_warning : Texto → Option Texto → Option ℕ → DialogOptions
dialogo_warning = simples warning (codes "Entendido") true

abbrev pub dialogo_info : Texto → Option Texto → Option ℕ → DialogOptions
dialogo_info = simples info (codes "OK") true

-- `AppDialog.confirm`
abbrev pub dialogo_confirm : Texto → Texto → ℕ → Option ℕ → Texto → Texto → DialogOptions
dialogo_confirm title message on_confirm on_cancel confirm_text cancel_text = record {
  tipo = some warning;
  title = title;
  message = some message;
  confirm_text = some confirm_text;
  cancel_text = some cancel_text;
  on_confirm = some on_confirm;
  on_cancel = on_cancel;
  buttons = [];
  allow_outside_click = false;
}

abbrev palavras_de_sucesso : List Texto
palavras_de_sucesso =
    codes "sucesso"
    ∷ codes "concluíd"
    ∷ codes "emitida"
    ∷ codes "atualizado"
    ∷ codes "salvo"
    ∷ codes "cadastrado"
    ∷ codes "✅"
    ∷ []

abbrev palavras_de_erro : List Texto
palavras_de_erro =
    codes "erro"
    ∷ codes "falha"
    ∷ codes "inválid"
    ∷ codes "negad"
    ∷ codes "offline"
    ∷ codes "bloquead"
    ∷ codes "não foi possível"
    ∷ codes "limite"
    ∷ codes "insuficiente"
    ∷ []

abbrev palavras_de_aviso : List Texto
palavras_de_aviso =
    codes "atenção"
    ∷ codes "aviso"
    ∷ codes "fechad"
    ∷ codes "confirma"
    ∷ codes "deseja"
    ∷ codes "sem insumos"
    ∷ codes "campo obrigatório"
    ∷ (9888 ∷ 65039 ∷ [])
    ∷ []

abbrev ou_vazio : Option Texto → Texto
ou_vazio none = []
ou_vazio (some t) = t

-- The kind that `AppDialog.alert` reads from the title and the message.
unfoldable pub tipo_do_alerta : Texto → Option Texto → DialogType
unfolding includes to_lower_case
tipo_do_alerta title message =
    let full_text = to_lower_case (title ++ 32 ∷ ou_vazio message) in
    if any (includes full_text) palavras_de_sucesso
    then success
    else if any (includes full_text) palavras_de_erro
    then error
    else if any (includes full_text) palavras_de_aviso
    then warning
    else info

abbrev cancelavel : Option Bool → List DialogButton → Bool
cancelavel none buttons = not (ltb 1 (length buttons))
cancelavel (some b) buttons = b

-- `AppDialog.alert`; no buttons are an empty list of them.
unfoldable pub dialogo_alert :
    Texto → Option Texto → List DialogButton → Option Bool → DialogOptions
unfolding tipo_do_alerta
dialogo_alert title message buttons cancelable = record {
  tipo = some (tipo_do_alerta title message);
  title = title;
  message = message;
  confirm_text = none;
  cancel_text = none;
  on_confirm = none;
  on_cancel = none;
  buttons = buttons;
  allow_outside_click = cancelavel cancelable buttons;
}

pub data Toque : Type 0 where
  fora confirmar cancelar : Toque
  botao : ℕ → Toque

abbrev sem_botoes : List DialogButton → Bool
sem_botoes [] = true
sem_botoes (b ∷ bs) = false

abbrev presente : Option Texto → Bool
presente none = false
presente (some t) = not (vazio t)

abbrev do_botao : Option DialogButton → Option (Option ℕ)
do_botao none = none
do_botao (some b) = some b.on_press

-- The callback that a press is given, if what is pressed is shown: `handleDismiss`, and the buttons
-- of `renderButtons`.
unfoldable pub retorno_de : Toque → DialogOptions → Option (Option ℕ)
retorno_de fora o = if o.allow_outside_click then some o.on_cancel else none
retorno_de confirmar o = if sem_botoes o.buttons then some o.on_confirm else none
retorno_de cancelar o =
    if sem_botoes o.buttons
    then (if presente o.cancel_text then some o.on_cancel else none)
    else none
retorno_de (botao i) o = do_botao (get_elem? o.buttons i)

-- `handleButtonPress`
abbrev pub handle_button_press : Option (Option ℕ) → Dialogos → Dialogos
handle_button_press none d = d
handle_button_press (some r) d = record d { saindo = d.saindo ++ r ∷ [] }

abbrev pub tocar_em : Option DialogOptions → Toque → Dialogos → Dialogos
tocar_em none t d = d
tocar_em (some o) t d = handle_button_press (retorno_de t o) d

abbrev chamar : Option ℕ → Dialogos → Dialogos
chamar none d = d
chamar (some k) d = record d { chamados = k ∷ d.chamados }

-- The oldest animation ends.
abbrev pub terminar : List (Option ℕ) → Dialogos → Dialogos
terminar [] d = d
terminar (r ∷ rs) d = chamar r (fechar_dialogo (record d { saindo = rs }))

pub data Acao : Type 0 where
  abrir : DialogOptions → Acao
  tocar : Toque → Acao
  animacao_termina : Acao

unfoldable pub passo : Acao → Dialogos → Dialogos
unfolding retorno_de
passo (abrir o) d = abrir_dialogo o d
passo (tocar t) d = if d.is_open then tocar_em d.options t d else d
passo animacao_termina d = terminar d.saindo d

unfoldable pub executar : List Acao → Dialogos → Dialogos
unfolding passo
executar [] d = d
executar (a ∷ acoes) d = executar acoes (passo a d)
