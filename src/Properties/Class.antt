-- ===== src/Properties/Class.antt =====
-- A class of GObject with the property functions it defines, and what it means that they agree.
use storaged.Prelude.{
  ◌≡◌, refl, Bool, true, false, ◌&&◌, Option, none, some, List, [], ◌∷◌, ◌⊎◌, inl, inr,
}
use storaged.Properties.Values.{Value, holds, ParamSpec}

-- How a property function ends: it is done, it has warned of an invalid property id, or an assertion
-- has failed.
pub data Outcome {ℓ} (A : Type ℓ) : Type ℓ where
  done : A → Outcome A
  invalid : Outcome A
  aborted : Outcome A

abbrev pub then_do {ℓ} : {A B : Type ℓ} → Outcome A → (A → Outcome B) → Outcome B
then_do (done a) f = f a
then_do invalid f = invalid
then_do aborted f = aborted

-- g_assert (field == NULL), and then the field is written.
abbrev pub set_once {ℓ} : {A S : Type ℓ} → Option A → S → Outcome S
set_once none s = done s
set_once (some a) s = aborted

-- A class with its property ids and its fields
pub record Class (Key State : Type 0) : Type 0 where
  pub spec : Key → Option ParamSpec
  pub set_property : Key → Value → State → Outcome State
  pub get_property : Key → State → Outcome Value

abbrev pub is_readable : Option ParamSpec → Bool
is_readable none = false
is_readable (some p) = p.readable

abbrev pub is_writable : Option ParamSpec → Bool
is_writable none = false
is_writable (some p) = p.writable

abbrev pub takes : Option ParamSpec → Value → Bool
takes none v = false
takes (some p) v = holds p.value_type v

-- The property can be written and read, and the value is of its type.
abbrev pub is_rereadable : Option ParamSpec → Value → Bool
is_rereadable p v = is_readable p && is_writable p && takes p v

-- The switch has a case.
abbrev pub is_valid {ℓ} : {A : Type ℓ} → Outcome A → Bool
is_valid (done a) = true
is_valid invalid = false
is_valid aborted = true

-- What is read is a value of the type that was installed.
abbrev pub is_typed : Option ParamSpec → Outcome Value → Bool
is_typed p (done v) = takes p v
is_typed p invalid = true
is_typed p aborted = false

pub is_valid-set_once {ℓ} :
    {A S : Type ℓ} (old : Option A) (s : S) → is_valid (set_once old s) ≡ true
is_valid-set_once none s = refl
is_valid-set_once (some a) s = refl

pub then_do-set_once {ℓ} :
    {A S B : Type ℓ} (old : Option A) (s : S) (f : S → Outcome B) (b : B)
    → f s ≡ done b
    → (then_do (set_once old s) f ≡ done b) ⊎ (set_once old s ≡ aborted)
then_do-set_once none s f b h = inl h
then_do-set_once (some a) s f b h = inr refl

module _ {Key State : Type 0} (c : Class Key State) where
  -- The functions of a class agree with what it installs: get_property knows the properties that are
  -- readable, with their types, and set_property those that are writable; and a value of the right
  -- type that was set is what is then read, unless an assertion stopped the program.
  pub record Agrees : Type 0 where
    pub gets : (i : Key) (s : State) → is_valid (c.get_property i s) ≡ is_readable (c.spec i)
    pub gets_typed : (i : Key) (s : State) → is_typed (c.spec i) (c.get_property i s) ≡ true
    pub sets :
        (i : Key) (v : Value) (s : State) → is_valid (c.set_property i v s) ≡ is_writable (c.spec i)
    pub rereads :
        (i : Key) (v : Value) (s : State)
        → is_rereadable (c.spec i) v ≡ true
        → (then_do (c.set_property i v s) (c.get_property i) ≡ done v)
          ⊎ (c.set_property i v s ≡ aborted)

  -- Setting properties one after the other, as g_object_new does
  unfoldable pub set_all : List (Key × Value) → State → Outcome State
  set_all [] s = done s
  set_all ((i, v) ∷ rest) s = then_do (c.set_property i v s) (set_all rest)
