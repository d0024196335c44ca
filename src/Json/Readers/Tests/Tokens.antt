-- ===== src/Json/Readers/Tests/Tokens.antt =====
-- A stream of tokens for the examples, and that it keeps the promises of pdjson.
use ghcli.Json.Stream.{
  JsonType, object, object_end, array, array_end, same, Pdjson, Token, plain, text, num, type_of,
  Value, atom, Scalar, written, numeral, truth, nothing, token_of, done, list, obj, Values, nil,
  cons, Members, none_left, member, tokens_of, tokens_of_values, tokens_of_members, IsLawful, Shows,
}
use ghcli.Prelude.{
  ◌∙◌, ℕ, zero, suc, ◌≡◌, refl, ap, true, false, Bool, List, [], ◌∷◌, Bytes, if◌then◌else◌, ◌||◌, ℤ,
  pos,
}

-- An array or an object begins or ends.
abbrev begins : {N : Type 0} → Token N → Bool
begins t = same (type_of t) array || same (type_of t) object

abbrev ends : {N : Type 0} → Token N → Bool
ends t = same (type_of t) array_end || same (type_of t) object_end

-- The tokens behind the end of what is `depth` levels further out.
unfoldable pub skip : ℕ → List (Token ℤ) → List (Token ℤ)
skip depth [] = []
skip zero (t ∷ ts) =
    let inner = skip 1 ts in
    let more = skip 0 ts in if begins t then inner else if ends t then ts else more
skip (suc depth) (t ∷ ts) =
    let inner = skip (suc (suc depth)) ts in
    let outer = skip depth ts in
    let more = skip (suc depth) ts in if begins t then inner else if ends t then outer else more

abbrev front_of : List (Token ℤ) → JsonType × (List (Token ℤ) × Token ℤ)
front_of [] = (done, ([], plain done))
front_of (t ∷ ts) = (type_of t, (ts, t))

abbrev type_in_front : List (Token ℤ) → JsonType
type_in_front [] = done
type_in_front (t ∷ ts) = type_of t

abbrev text_of : Token ℤ → Bytes
text_of (text b) = b
text_of (plain t) = []
text_of (num n) = []

abbrev number_in : Token ℤ → ℤ
number_in (num n) = n
number_in (plain t) = pos 0
number_in (text b) = pos 0

-- The tokens that are left, and the last one.
abbrev pub tokens : Pdjson
tokens = record {
  Stream = List (Token ℤ) × Token ℤ;
  Number = ℤ;
  zero_number = pos 0;
  truncate = λ n. n;
  is_zero = λ n. false;
  next = λ (ts, t). front_of ts;
  peek = λ (ts, t). (type_in_front ts, (ts, t));
  skip_until = λ end (ts, t). (skip 0 ts, t);
  get_string = λ (ts, t). text_of t;
  get_number = λ (ts, t). number_in t;
}

skip-token_of :
    (depth : ℕ) (a : Scalar ℤ) (ts : List (Token ℤ)) → skip depth (token_of a ∷ ts) ≡ skip depth ts
unfolding skip
skip-token_of zero (written b) ts = refl
skip-token_of zero (numeral n) ts = refl
skip-token_of zero (truth true) ts = refl
skip-token_of zero (truth false) ts = refl
skip-token_of zero nothing ts = refl
skip-token_of (suc depth) (written b) ts = refl
skip-token_of (suc depth) (numeral n) ts = refl
skip-token_of (suc depth) (truth true) ts = refl
skip-token_of (suc depth) (truth false) ts = refl
skip-token_of (suc depth) nothing ts = refl

skip-begin :
    (depth : ℕ) (t : JsonType) (ts : List (Token ℤ))
    → (same t array || same t object) ≡ true
    → skip depth (plain t ∷ ts) ≡ skip (suc depth) ts
unfolding skip
skip-begin zero t ts h = rw h refl
skip-begin (suc depth) t ts h = rw h refl

mutual
  unfolding tokens_of skip

  skip-value :
      (v : Value ℤ) (depth : ℕ) (ts : List (Token ℤ)) → skip depth (tokens_of v ts) ≡ skip depth ts
  skip-value (atom a) depth ts = skip-token_of depth a ts
  skip-value (list vs) depth ts =
      skip-begin depth array (tokens_of_values vs (plain array_end ∷ ts)) refl
      ∙ skip-values vs (suc depth) (plain array_end ∷ ts)
  skip-value (obj ms) depth ts =
      skip-begin depth object (tokens_of_members ms (plain object_end ∷ ts)) refl
      ∙ skip-members ms (suc depth) (plain object_end ∷ ts)

  skip-values :
      (vs : Values ℤ) (depth : ℕ) (ts : List (Token ℤ))
      → skip depth (tokens_of_values vs ts) ≡ skip depth ts
  skip-values nil depth ts = refl
  skip-values (cons v vs) depth ts =
      skip-value v depth (tokens_of_values vs ts) ∙ skip-values vs depth ts

  skip-members :
      (ms : Members ℤ) (depth : ℕ) (ts : List (Token ℤ))
      → skip depth (tokens_of_members ms ts) ≡ skip depth ts
  skip-members none_left depth ts = refl
  skip-members (member k v ms) depth ts =
      skip-token_of depth (written k) (tokens_of v (tokens_of_members ms ts))
      ∙ skip-value v depth (tokens_of_members ms ts)
      ∙ skip-members ms depth ts

Shows-last : (t : Token ℤ) (ts : List (Token ℤ)) → Shows tokens (ts, t) t
Shows-last (plain t) ts = tt
Shows-last (text b) ts = refl
Shows-last (num n) ts = refl

next-law :
    (ts' : List (Token ℤ)) (t : Token ℤ) (ts : List (Token ℤ))
    → ts' ≡ t ∷ ts
    → ((front_of ts').0 ≡ type_of t) × (Shows tokens (front_of ts').1 t) × ((front_of ts').1.0 ≡ ts)
next-law ts' t ts e = rw e (refl, Shows-last t ts, refl)

pub tokens-IsLawful : IsLawful tokens
unfolding skip
tokens-IsLawful = record {
  Yields = λ (ts', t) ts. ts' ≡ ts;
  next-token = λ {s} t {ts} e. next-law s.0 t ts e;
  peek-token = λ {s} t {ts} e. (ap type_in_front e, e);
  skip_until-array = λ {s} vs {ts} e. ap (skip 0) e ∙ skip-values vs 0 (plain array_end ∷ ts);
  skip_until-object = λ {s} ms {ts} e. ap (skip 0) e ∙ skip-members ms 0 (plain object_end ∷ ts);
}

pub tokens-Yields : (ts : List (Token ℤ)) (t : Token ℤ) → tokens-IsLawful.Yields (ts, t) ts
unfolding tokens-IsLawful
tokens-Yields ts t = refl
