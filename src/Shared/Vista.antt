-- ===== src/Shared/Vista.antt =====
-- What a component of the screen shows, in the order of its elements: the texts, the controls that
-- can be pressed, whether they are disabled and what a press does, and the inputs with what typing
-- does. Layout, colours and sizes are left out.
use gestao_restaurante.Base.Decimal.{digitos, texto_fixed2}
use gestao_restaurante.Base.{
  ℕ, ◌+◌, ◌/◌, ◌%◌, ◌==◌, ◌≡◌, refl, ap, ◌∙◌, Bool, true, false, ◌||◌, List, [], ◌∷◌, ◌++◌, any,
  if◌then◌else◌,
}
use gestao_restaurante.Base.Text.{Texto, replace_first}

pub data Elemento (A : Type 0) : Type 0 where
  texto : Texto → Elemento A
  botao : Bool → A → Elemento A
  campo : Texto → (Texto → A) → Elemento A

-- What can be pressed: the actions of the controls that are not disabled.
abbrev pub toques : {A : Type 0} → List (Elemento A) → List A
toques [] = []
toques (texto t ∷ v) = toques v
toques (botao desabilitado a ∷ v) = if desabilitado then toques v else a ∷ toques v
toques (campo t f ∷ v) = toques v

-- A control with this action can be pressed.
abbrev pub oferece : {A : Type 0} → (A → Bool) → List (Elemento A) → Bool
oferece p v = any p (toques v)

or_assoc : (a b c : Bool) → (a || (b || c)) ≡ ((a || b) || c)
or_assoc true b c = refl
or_assoc false b c = refl

module _ {A : Type 0} (p : A → Bool) where
  -- A screen offers what its parts offer.
  pub oferece-append : (v w : List (Elemento A)) → oferece p (v ++ w) ≡ (oferece p v || oferece p w)
  oferece-append [] w = refl
  oferece-append (texto t ∷ v) w = oferece-append v w
  oferece-append (botao true a ∷ v) w = oferece-append v w
  oferece-append (botao false a ∷ v) w =
      ap (λ b. p a || b) (oferece-append v w) ∙ or_assoc (p a) (oferece p v) (oferece p w)
  oferece-append (campo t f ∷ v) w = oferece-append v w

-- A number as `{n}` prints it: its integer part, and the fraction without the zeros at its end.
abbrev casas : ℕ → Texto
casas m =
    if m == 0
    then []
    else if m % 100 == 0
    then b'.' ∷ (b'0' + m / 100) ∷ []
    else if m % 10 == 0
    then b'.' ∷ (b'0' + m / 100) ∷ (b'0' + m / 10 % 10) ∷ []
    else b'.' ∷ (b'0' + m / 100) ∷ (b'0' + m / 10 % 10) ∷ (b'0' + m % 10) ∷ []

unfoldable pub texto_numero : ℕ → Texto
unfolding digitos
texto_numero v = digitos (v / 1000) ++ casas (v % 1000)

-- `n.toFixed(1)`
unfoldable pub texto_fixed1 : ℕ → Texto
unfolding digitos
texto_fixed1 v = let d = (v + 50) / 100 in digitos (d / 10) ++ b'.' ∷ (b'0' + d % 10) ∷ []

-- `n.toFixed(2).replace('.', ',')`
unfoldable pub com_virgula : ℕ → Texto
unfolding texto_fixed2 replace_first
com_virgula v = replace_first b'.' b',' (texto_fixed2 v)
