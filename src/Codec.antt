-- ===== src/Codec.antt =====
-- `Buffer`, `JSON` and `trim`, which src/network/project-crypto.ts and src/network/invite.ts call:
-- a parameter of the models, with what a code of text in base64url behind a prefix relies on.
pub mod Sample
use Prim.Native.String.{◌++◌ as append, slice, len}
use package.text.Mathlib.Text.{starts_with}
use package.text.Mathlib.TextPositions.{starts_with-append, slice-append_right, len-append}
use dsh_carbonclub.Base.{ℕ, ◌≡◌, refl, ◌∙◌, ap, Bool, true, String, Option, List}
use dsh_carbonclub.Verify.Values.{Value}

-- Eight bits.
pub data Byte : Type 0 where
  byte : Bool → Bool → Bool → Bool → Bool → Bool → Bool → Bool → Byte

abbrev pub Bytes : Type 0
Bytes = List Byte

-- `text_length` is the number of UTF-16 units.
pub record Codec : Type 0 where
  pub to_base64url : Bytes → String
  pub from_base64url : String → Bytes
  pub from_text : String → Bytes
  pub to_text : Bytes → String
  pub stringify : Value → String
  pub parse : String → Option Value
  pub decimal : ℕ → String
  pub trim : String → String
  pub text_length : String → ℕ

-- A codec that decodes what it encoded, where a code behind the prefix has no space at its ends.
pub record IsCodec (codec : Codec) (prefix : String) : Type 0 where
  pub base64url : (bytes : Bytes) → codec.from_base64url (codec.to_base64url bytes) ≡ bytes
  pub trimmed :
      (bytes : Bytes)
      → codec.trim (append prefix (codec.to_base64url bytes))
        ≡ append prefix (codec.to_base64url bytes)

-- `prefix + Buffer.from(t).toString('base64url')`
abbrev pub code_of : Codec → String → String → String
code_of codec prefix t = append prefix (codec.to_base64url (codec.from_text t))

-- `Buffer.from(code.slice(prefix.length), 'base64url').toString('utf8')`
abbrev pub text_behind : Codec → String → String → String
text_behind codec prefix code =
    codec.to_text (codec.from_base64url (slice code (len prefix) (len code)))

-- The text of a code is what was encoded, to UTF-8 and back.
pub text_behind-code_of :
    (codec : Codec) (prefix t : String)
    → IsCodec codec prefix
    → text_behind codec prefix (code_of codec prefix t) ≡ codec.to_text (codec.from_text t)
text_behind-code_of codec prefix t laws =
    let bytes = codec.from_text t in
    let rest = codec.to_base64url bytes in
    let cut : slice (append prefix rest) (len prefix) (len (append prefix rest)) ≡ rest =
      ap (slice (append prefix rest) (len prefix)) (len-append prefix rest)
      ∙ slice-append_right prefix rest in
    ap (λ (x : String). codec.to_text (codec.from_base64url x)) cut
    ∙ ap codec.to_text (laws.base64url bytes)

pub starts_with-code_of :
    (codec : Codec) (prefix t : String) → starts_with (code_of codec prefix t) prefix ≡ true
starts_with-code_of codec prefix t =
    starts_with-append prefix (codec.to_base64url (codec.from_text t))
