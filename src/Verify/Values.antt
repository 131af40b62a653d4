-- ===== src/Verify/Values.antt =====
-- The untyped values that `assertUnsigned` (src/network/room-events.ts) reads: what JSON decodes to,
-- and `undefined`. Of a number that is no integer only that is kept, since every check refuses it.
use dsh_carbonclub.Base.{
  ℕ, ◌-◌, ◌^◌, Bool, true, false, ◌&&◌, String, leb, ltb, ◌==◌, same, if◌then◌else◌,
}

-- The integers over the native numbers: `negsuc n` is `-(n + 1)`.
pub data ℤ : Type 0 where
  pos negsuc : ℕ → ℤ

mutual
  pub data Value : Type 0 where
    undefined null : Value
    boolean : Bool → Value
    integer : ℤ → Value
    fraction : Value
    text : String → Value
    array : Values → Value
    object : Fields → Value

  pub data Values : Type 0 where
    end : Values
    item : Value → Values → Values

  pub data Fields : Type 0 where
    closed : Fields
    field : String → Value → Fields → Fields

-- A property of an object's fields, `undefined` where it is missing.
unfoldable pub look_up : String → Fields → Value
look_up name closed = undefined
look_up name (field key value fields) = if same key name then value else look_up name fields

-- `value.name`, for a value that is neither `null` nor `undefined`. No name asked for is an array's.
unfoldable pub property : String → Value → Value
unfolding look_up
property name (object fields) = look_up name fields
property name _ = undefined

-- `typeof value === 'object' && value !== null`
abbrev pub is_object : Value → Bool
is_object (array _) = true
is_object (object _) = true
is_object _ = false

abbrev pub is_undefined : Value → Bool
is_undefined undefined = true
is_undefined _ = false

abbrev pub is_null : Value → Bool
is_null null = true
is_null _ = false

-- `typeof value === 'string'` and a test of the text.
abbrev pub is_text_with : (String → Bool) → Value → Bool
is_text_with test (text t) = test t
is_text_with test _ = false

-- `value === t` for a text.
abbrev pub is_text : String → Value → Bool
is_text t = is_text_with (λ u. same u t)

abbrev pub max_safe : ℕ
max_safe = 2 ^ 53 - 1

abbrev pub is_safe : ℤ → Bool
is_safe (pos n) = leb n max_safe
is_safe (negsuc n) = ltb n max_safe

-- `Number.isSafeInteger(value)` and a test of the number.
abbrev pub is_safe_with : (ℤ → Bool) → Value → Bool
is_safe_with test (integer n) = is_safe n && test n
is_safe_with test _ = false

abbrev pub is_positive : ℤ → Bool
is_positive (pos n) = leb 1 n
is_positive (negsuc n) = false

abbrev pub is_natural : ℤ → Bool
is_natural (pos n) = true
is_natural (negsuc n) = false

abbrev pub equal : ℤ → ℤ → Bool
equal (pos m) (pos n) = m == n
equal (negsuc m) (negsuc n) = m == n
equal _ _ = false

-- The text or the number of a value that was tested to have one.
abbrev pub text_of : Value → String
text_of (text t) = t
text_of _ = ""

abbrev pub number_of : Value → ℕ
number_of (integer (pos n)) = n
number_of _ = 0

abbrev pub is_text_value : Value → Bool
is_text_value = is_text_with (λ t. true)
