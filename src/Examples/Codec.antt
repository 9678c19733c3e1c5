-- ===== src/Examples/Codec.antt =====
-- A text form of `ApiKey` that can be read back, in place of JSON: a list of texts in which "2" opens a
-- text and "1" stands before each character.
use Prim.Native.Char.{code}
use Prim.Native.String.{[] as ε, ◌∷◌ as ◌⊳◌}
use text.Mathlib.TextLemmas.{append-nil, nil-append, cons-append, cons≢nil}
use nexus_ai_gateway.Prelude.{
  ℕ, zero, suc, String, ◌^◌, ◌≡◌, refl, sym, ap, ◌∙◌, Option, none, some, List, [], ◌∷◌, eqb,
  if◌then◌else◌,
}
use nexus_ai_gateway.Domain.Keys.{ApiKey}
use nexus_ai_gateway.Auth.Validator.{KeyCodec}

abbrev chars : String → String → String
chars ε rest = rest
chars (c ⊳ s) rest = "1" ⊳ (c ⊳ chars s rest)

abbrev join : List String → String
join [] = ε
join (x ∷ xs) = "2" ⊳ chars x (join xs)

-- The characters before the first mark, and the texts after it.
abbrev split : String → String × List String
split ε = (ε, [])
split (m ⊳ ε) = (ε, ε ∷ [])
split (m ⊳ (c ⊳ s)) =
    let opened = split (c ⊳ s) in
    let (before, texts) = split s in
    if eqb (code m) 50 then (ε, opened.0 ∷ opened.1) else (c ⊳ before, texts)

split-open : (s : String) → split ("2" ⊳ s) ≡ (ε, (split s).0 ∷ (split s).1)
split-open ε = refl
split-open (c ⊳ s) = refl

split-chars : (x rest : String) → split (chars x rest) ≡ (x ^ (split rest).0, (split rest).1)
split-chars ε rest = ap (λ y. (y, (split rest).1)) (sym (nil-append (split rest).0))
split-chars (c ⊳ s) rest =
    ap (λ p. (c ⊳ p.0, p.1)) (split-chars s rest)
    ∙ ap (λ y. (y, (split rest).1)) (sym (cons-append c s (split rest).0))

pub split-join : (l : List String) → split (join l) ≡ (ε, l)
split-join [] = refl
split-join (x ∷ xs) =
    split-open (chars x (join xs))
    ∙ ap (λ p. (ε, p.0 ∷ p.1)) (split-chars x (join xs) ∙ ap (λ p. (x ^ p.0, p.1)) (split-join xs))
    ∙ ap (λ y. (ε, y ∷ xs)) (append-nil x)

abbrev unary : ℕ → String
unary zero = ε
unary (suc n) = "1" ⊳ unary n

abbrev count : String → ℕ
count ε = zero
count (c ⊳ s) = suc (count s)

count-unary : (n : ℕ) → count (unary n) ≡ n
count-unary zero = refl
count-unary (suc n) = ap suc (count-unary n)

abbrev write_time : Option ℕ → String
write_time none = ε
write_time (some n) = "1" ⊳ unary n

abbrev read_time : String → Option ℕ
read_time ε = none
read_time (c ⊳ s) = some (count s)

read_time-write_time : (o : Option ℕ) → read_time (write_time o) ≡ o
read_time-write_time none = refl
read_time-write_time (some n) = ap some (count-unary n)

abbrev fields : ApiKey → List String
fields k =
    k.id
    ∷ k.project_id
    ∷ k.prefix
    ∷ k.status
    ∷ unary k.created_at
    ∷ write_time k.expires_at
    ∷ k.scopes

abbrev key_of : List String → Option ApiKey
key_of (id ∷ project_id ∷ prefix ∷ status ∷ created ∷ expires ∷ scopes) = some (record {
  id = id;
  project_id = project_id;
  hash = "";
  prefix = prefix;
  status = status;
  scopes = scopes;
  created_at = count created;
  expires_at = read_time expires;
})
key_of _ = none

pub key_of-fields : (k : ApiKey) → key_of (fields k) ≡ some (record k { hash = "" })
key_of-fields k = rw (count-unary k.created_at, read_time-write_time k.expires_at) refl

abbrev pub key_codec : KeyCodec
key_codec = record {
  marshal = λ k. join (fields k);
  unmarshal = λ text. key_of (split text).1;
  unmarshal-marshal = λ k. ap (λ p. key_of p.1) (split-join (fields k)) ∙ key_of-fields k;
  marshal-ne_empty = λ k. cons≢nil;
}
