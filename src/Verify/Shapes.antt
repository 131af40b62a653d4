-- ===== src/Verify/Shapes.antt =====
-- What an untyped value is, where a test of src/network/room-events.ts lets it pass.
use dsh_carbonclub.Base.{
  ℕ, ◌≡◌, refl, Bool, true, false, ◌||◌, String, Option, none, some, same_iff, ap, ◌∙◌, and_true,
  false_true, arith,
}
use dsh_carbonclub.Verify.Values.{
  ℤ, pos, negsuc, Value, undefined, null, boolean, integer, fraction, text, array, object, is_text,
  is_text_with, is_safe, is_safe_with, is_undefined,
}
use dsh_carbonclub.Verify.Typed.{as_text, as_optional}

-- What is tested to be a text is one.
pub is_text_with-text :
    (test : String → Bool) (v : Value) → is_text_with test v ≡ true → (t : String) × (v ≡ text t)
is_text_with-text test (text t) h = (t, refl)
is_text_with-text test undefined h = absurd (cc)
is_text_with-text test null h = absurd (cc)
is_text_with-text test (boolean _) h = absurd (cc)
is_text_with-text test (integer _) h = absurd (cc)
is_text_with-text test fraction h = absurd (cc)
is_text_with-text test (array _) h = absurd (cc)
is_text_with-text test (object _) h = absurd (cc)

pub is_safe_with-integer :
    (test : ℤ → Bool) (v : Value)
    → is_safe_with test v ≡ true
    → (n : ℤ) × (v ≡ integer n) × (test n ≡ true)
is_safe_with-integer test (integer n) h = (n, refl, (and_true (is_safe n) (test n) h).1)
is_safe_with-integer test undefined h = absurd (cc)
is_safe_with-integer test null h = absurd (cc)
is_safe_with-integer test (boolean _) h = absurd (cc)
is_safe_with-integer test fraction h = absurd (cc)
is_safe_with-integer test (text _) h = absurd (cc)
is_safe_with-integer test (array _) h = absurd (cc)
is_safe_with-integer test (object _) h = absurd (cc)

-- A test that no negative number passes.
abbrev pub IsNatural : (ℤ → Bool) → Type 0
IsNatural test = (n : ℕ) → test (negsuc n) ≡ false

pub is_safe_with-natural :
    (test : ℤ → Bool) (v : Value)
    → IsNatural test
    → is_safe_with test v ≡ true
    → (n : ℕ) × (v ≡ integer (pos n)) × (test (pos n) ≡ true)
is_safe_with-natural test (integer (pos n)) natural h =
    (n, refl, (and_true (is_safe (pos n)) _ h).1)
is_safe_with-natural test (integer (negsuc n)) natural h =
    false_true (natural n) (and_true (is_safe (negsuc n)) _ h).1
is_safe_with-natural test undefined natural h = absurd (cc)
is_safe_with-natural test null natural h = absurd (cc)
is_safe_with-natural test (boolean _) natural h = absurd (cc)
is_safe_with-natural test fraction natural h = absurd (cc)
is_safe_with-natural test (text _) natural h = absurd (cc)
is_safe_with-natural test (array _) natural h = absurd (cc)
is_safe_with-natural test (object _) natural h = absurd (cc)

pub is_text-text : (u : String) (v : Value) → is_text u v ≡ true → v ≡ text u
is_text-text u v h =
    let (t, e) = is_text_with-text _ v h in e ∙ ap text ((same_iff t u).0 (rw e at h))

-- An optional text is undefined or a text.
pub third : (a b c : Bool) → a ≡ false → b ≡ false → (a || b || c) ≡ true → c ≡ true
third a b c h k l = ground (arith, h, k, l)

pub is_optional-text :
    (test : String → Bool) (v : Value)
    → (is_undefined v || is_text_with test v) ≡ true
    → (t : Option String) × (as_optional as_text v ≡ some t)
is_optional-text test undefined h = (none, refl)
is_optional-text test (text t) h = (some t, refl)
is_optional-text test null h = absurd (cc)
is_optional-text test (boolean _) h = absurd (cc)
is_optional-text test (integer _) h = absurd (cc)
is_optional-text test fraction h = absurd (cc)
is_optional-text test (array _) h = absurd (cc)
is_optional-text test (object _) h = absurd (cc)
