-- ===== src/Codec/Sample.antt =====
-- A codec to run on: base64url writes the bits of a byte, a text is letters, and one value has a text.
use Prim.Native.Char.{Char, code}
use Prim.Native.String.{◌++◌ as append, [] as []ˢ, ◌∷◌ as ◌∷ˢ◌, slice, len}
use dsh_carbonclub.Base.{
  ℕ, ◌+◌, ◌-◌, ◌/◌, ◌%◌, ◌≡◌, refl, Bool, true, false, String, none, some, [], ◌∷◌, same, ◌==◌,
  if◌then◌else◌,
}
use dsh_carbonclub.Verify.Values.{Value}
use dsh_carbonclub.Codec.{Byte, byte, Bytes, Codec, IsCodec}

abbrev bit : ℕ → ℕ → Bool
bit place n = (n / place) % 2 == 1

abbrev pub byte_of : ℕ → Byte
byte_of n =
    byte (bit 128 n) (bit 64 n) (bit 32 n) (bit 16 n) (bit 8 n) (bit 4 n) (bit 2 n) (bit 1 n)

abbrev plus : Bool → ℕ → ℕ
plus true n = n + n + 1
plus false n = n + n

abbrev number : Byte → ℕ
number (byte a b c d e f g h) =
    plus h (plus g (plus f (plus e (plus d (plus c (plus b (plus a 0)))))))

abbrev digit : Bool → Char
digit true = "1"
digit false = "0"

abbrev is_one : Char → Bool
is_one c = code c == 49

is_one-digit : (b : Bool) → is_one (digit b) ≡ b
is_one-digit true = refl
is_one-digit false = refl

abbrev write : Bytes → String
write [] = []ˢ
write (byte a b c d e f g h ∷ rest) =
    digit a
    ∷ˢ digit b
    ∷ˢ digit c
    ∷ˢ digit d
    ∷ˢ digit e
    ∷ˢ digit f
    ∷ˢ digit g
    ∷ˢ digit h
    ∷ˢ write rest

abbrev read : String → Bytes
read (a ∷ˢ b ∷ˢ c ∷ˢ d ∷ˢ e ∷ˢ f ∷ˢ g ∷ˢ h ∷ˢ rest) =
    byte (is_one a) (is_one b) (is_one c) (is_one d) (is_one e) (is_one f) (is_one g) (is_one h)
    ∷ read rest
read _ = []

read-write : (bytes : Bytes) → read (write bytes) ≡ bytes
read-write [] = refl
read-write (byte a b c d e f g h ∷ rest) =
    rw
      (
        is_one-digit a,
        is_one-digit b,
        is_one-digit c,
        is_one-digit d,
        is_one-digit e,
        is_one-digit f,
        is_one-digit g,
        is_one-digit h,
        read-write rest,
      )
      refl

abbrev bytes_of : String → Bytes
bytes_of []ˢ = []
bytes_of (c ∷ˢ rest) = byte_of (code c) ∷ bytes_of rest

abbrev letter : ℕ → String → String
letter n rest = append (slice "abcdefghijklmnopqrstuvwxyz" (n - 97) (n - 96)) rest

abbrev text_of_bytes : Bytes → String
text_of_bytes [] = ""
text_of_bytes (b ∷ rest) = letter (number b) (text_of_bytes rest)

-- `value` is written as "value".
abbrev pub sample : Value → Codec
sample value = record {
  to_base64url = write;
  from_base64url = read;
  from_text = bytes_of;
  to_text = text_of_bytes;
  stringify = λ v. "value";
  parse = λ t. if same t "value" then some value else none;
  decimal = λ n. "1";
  trim = λ t. t;
  text_length = len;
}

pub sample-IsCodec : (value : Value) (prefix : String) → IsCodec (sample value) prefix
sample-IsCodec value prefix = record { base64url = read-write; trimmed = λ bytes. refl }
