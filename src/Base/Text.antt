-- ===== src/Base/Text.antt =====
-- Text as the list of its bytes: `std::string` and `std::string_view` of the source.
use Prim.Native.Char.{code}
use Prim.Native.String.{String}
use Prim.Native.Nat.{ℕ, suc}
use mathlib.Core.Path.{◌≡◌, refl, ap₂}
use mathlib.Core.Logic.{◌↔◌, ◌≢◌}
use mathlib.Core.Bool.{Bool, true, false, ◌&&◌}
use mathlib.Core.List.{List, [], ◌∷◌}
use mathlib.Core.Option.{Option, none, some}
use native.Mathlib.Omega.{arith}
use bsrvcore.Base.Lists.{take}
use bsrvcore.Base.Bools.{◌==◌, if◌then◌else◌}

abbrev pub Bytes : Type 0
Bytes = List ℕ

-- The bytes of an ASCII literal.
abbrev pub codes : String → Bytes
codes String.[] = []
codes (String.◌∷◌ c s) = code c ∷ codes s

-- `operator==` on strings.
unfoldable pub bytes_eq : Bytes → Bytes → Bool
bytes_eq [] [] = true
bytes_eq [] (_ ∷ _) = false
bytes_eq (_ ∷ _) [] = false
bytes_eq (a ∷ s) (b ∷ t) = (a == b) && bytes_eq s t

abbrev pub is_empty {ℓ} : {A : Type ℓ} → List A → Bool
is_empty [] = true
is_empty (_ ∷ _) = false

pub eq_of_bytes_eq : (s t : Bytes) → bytes_eq s t ≡ true → s ≡ t
unfolding bytes_eq
eq_of_bytes_eq [] [] h = refl
eq_of_bytes_eq [] (b ∷ t) h = cc
eq_of_bytes_eq (a ∷ s) [] h = cc
eq_of_bytes_eq (a ∷ s) (b ∷ t) h = ap₂ ◌∷◌ (ground arith) (eq_of_bytes_eq s t (ground arith))

pub bytes_eq_refl : (s : Bytes) → bytes_eq s s ≡ true
unfolding bytes_eq
bytes_eq_refl [] = refl
bytes_eq_refl (a ∷ s) = ground (arith, bytes_eq_refl s)

pub bytes_eq_iff : (s t : Bytes) → (bytes_eq s t ≡ true) ↔ (s ≡ t)
bytes_eq_iff s t = (eq_of_bytes_eq s t, λ e. rw (← e) (bytes_eq_refl s))

pub bytes_eq_of_ne : (s t : Bytes) → s ≢ t → bytes_eq s t ≡ false
bytes_eq_of_ne s t h = ground (arith, bytes_eq_iff s t)

-- `s.find(c)`: `none` is `npos`.
unfoldable pub find : ℕ → Bytes → Option ℕ
find c [] = none
find c (b ∷ s) = if b == c then some 0 else elim (find c s) [ none ↦ none | some k ↦ some (suc k) ]

-- `s.substr(0, k)`, where `npos` takes all of it.
abbrev pub upto : Option ℕ → Bytes → Bytes
upto none s = s
upto (some k) s = take k s

-- No byte of the text is `c`.
abbrev pub Lacks : ℕ → Bytes → Type 0
Lacks c [] = Unit {0}
Lacks c (b ∷ s) = (b ≢ c) × Lacks c s

-- The test for `Lacks`.
abbrev pub is_absent : ℕ → Bytes → Bool
is_absent c [] = true
is_absent c (b ∷ s) = if b == c then false else is_absent c s

pub is_absent-Lacks : (c : ℕ) (s : Bytes) → is_absent c s ≡ true → Lacks c s
is_absent-Lacks c [] h = tt
is_absent-Lacks c (b ∷ s) h = (ground arith, is_absent-Lacks c s (ground arith))
