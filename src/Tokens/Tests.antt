-- ===== src/Tokens/Tests.antt =====
-- A platform that writes texts in unary over two letters, for the tests of tokens.
mod Interaction
mod Visitor
use powerotp.Prelude.{
  ℕ, zero, suc, Bool, true, false, ◌&&◌, Option, none, some, List, [], ◌∷◌, ◌++◌, ◌==◌, nat_eq,
  if◌then◌else◌, Text, every, ◌≡◌, refl, ap, ◌∙◌, length,
}
use powerotp.Network.Address.{onto_first}
use powerotp.Tokens.{Platform, PlatformLaws, is_text, is_url}

-- Each unit follows a mark, and the end of a text is another mark with a unit that is not read.
abbrev write_onto : Text → Text → Text
write_onto [] rest = 0 ∷ 0 ∷ rest
write_onto (c ∷ t) rest = 1 ∷ c ∷ write_onto t rest

abbrev write : List Text → Text
write [] = []
write (t ∷ ts) = write_onto t (write ts)

abbrev read : Text → List Text
read [] = []
read (mark ∷ []) = []
read (mark ∷ c ∷ s) = if mark == 0 then [] ∷ read s else onto_first c (read s)

-- A number as its count of one letter, and another after it.
abbrev bars : ℕ → Text → Text
bars zero rest = 98 ∷ rest
bars (suc n) rest = 97 ∷ bars n rest

abbrev unary : Text → Text
unary [] = []
unary (c ∷ s) = bars c (unary s)

abbrev bump : Text → Text
bump [] = []
bump (n ∷ s) = suc n ∷ s

abbrev of_unary : Text → Text
of_unary [] = []
of_unary (c ∷ s) = if c == 98 then 0 ∷ of_unary s else bump (of_unary s)

of_unary-bars : (n : ℕ) (rest : Text) → of_unary (bars n rest) ≡ n ∷ of_unary rest
of_unary-bars zero rest = refl
of_unary-bars (suc n) rest = ap bump (of_unary-bars n rest)

of_unary-unary : (s : Text) → of_unary (unary s) ≡ s
of_unary-unary [] = refl
of_unary-unary (c ∷ s) = of_unary-bars c (unary s) ∙ ap (◌∷◌ c) (of_unary-unary s)

every-bars : (n : ℕ) (rest : Text) → every is_url rest ≡ true → every is_url (bars n rest) ≡ true
every-bars zero rest h = h
every-bars (suc n) rest h = every-bars n rest h

every-unary : (s : Text) → every is_url (unary s) ≡ true
every-unary [] = refl
every-unary (c ∷ s) = every-bars c (unary s) (every-unary s)

is_text-bars : (n : ℕ) (rest : Text) → is_text (bars n rest) ≡ true
is_text-bars zero rest = refl
is_text-bars (suc n) rest = refl

read-write_onto : (t rest : Text) → read (write_onto t rest) ≡ t ∷ read rest
read-write_onto [] rest = refl
read-write_onto (c ∷ t) rest = ap (onto_first c) (read-write_onto t rest)

read-write : (ts : List Text) → read (write ts) ≡ ts
read-write [] = refl
read-write (t ∷ ts) = read-write_onto t (write ts) ∙ ap (◌∷◌ t) (read-write ts)

module _ {Claims : Type 0} (fields : Claims → List Text)
    (of_fields : List Text → Option Claims) where
  abbrev from_read : List Text → Option Claims
  from_read [] = none
  from_read (t ∷ ts) = of_fields ts

  -- The digest of a text is its length and the secret.
  abbrev pub in_unary : Platform Claims
  in_unary = record {
    to_json = λ c. write ([] ∷ fields c);
    from_json = λ s. from_read (read s);
    encode = unary;
    decode = of_unary;
    hash_token = λ s secret. bars (length s) (unary secret);
    utf8 = λ s. s;
  }

  pub in_unary-laws : ((c : Claims) → of_fields (fields c) ≡ some c) → PlatformLaws in_unary
  in_unary-laws h = record {
    from_json-to_json = λ c. ap from_read (read-write ([] ∷ fields c)) ∙ h c;
    decode-encode = of_unary-unary;
    every-encode = every-unary;
    is_text-encode = λ c. refl;
    every-hash_token = λ s secret. every-bars (length s) (unary secret) (every-unary secret);
    is_text-hash_token = λ s secret. is_text-bars (length s) (unary secret);
  }
