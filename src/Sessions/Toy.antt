-- ===== src/Sessions/Toy.antt =====
-- A concrete library for the examples: a token holds its claims in the clear, with numbers in
-- strokes, and a password is its own hash.
use Prim.Native.Char.{Char, code}
use trust_shield.Base.{
  Bool-cases, inl, inr, eq_iff, ℕ, zero, suc, String, Option, none, some, Bool, true, false, ◌≡◌,
  refl, ◌≤◌, ◌<◌, ◌==◌, ◌=s=◌, leb, ap, ◌∙◌, if◌then◌else◌, arith, is_set,
}
use trust_shield.Tokens.{Claims, Decoded, valid, expired, SessionLibrary}
use trust_shield.Sessions.Lifetime.{SessionLaws}

abbrev pub write_number : ℕ → String → String
write_number zero rest = String.◌∷◌ "." rest
write_number (suc n) rest = String.◌∷◌ "i" (write_number n rest)

abbrev pub read_number : String → ℕ × String
read_number String.[] = (0, "")
read_number (String.◌∷◌ c s) = elim (code c == b'i') [
  | true ↦ (let (n, rest) = read_number s in (suc n, rest))
  | false ↦ (0, s)
]

read_number-write_number : (n : ℕ) (rest : String) → read_number (write_number n rest) ≡ (n, rest)
read_number-write_number zero rest = refl
read_number-write_number (suc n) rest =
    ap (λ (p : ℕ × String). let q : ℕ × String = (suc p.0, p.1) in q)
      (read_number-write_number n rest)

abbrev write_text : String → String → String
write_text String.[] rest = String.◌∷◌ "." rest
write_text (String.◌∷◌ c s) rest = String.◌∷◌ "i" (String.◌∷◌ c (write_text s rest))

abbrev read_text : String → String × String
read_text String.[] = ("", "")
read_text (String.◌∷◌ c String.[]) = ("", "")
read_text (String.◌∷◌ c (String.◌∷◌ d s)) = elim (code c == b'i') [
  | true ↦ (let (t, rest) = read_text s in (String.◌∷◌ d t, rest))
  | false ↦ ("", String.◌∷◌ d s)
]

read_text-write_text : (t rest : String) → read_text (write_text t rest) ≡ (t, rest)
read_text-write_text String.[] String.[] = refl
read_text-write_text String.[] (String.◌∷◌ d s) = refl
read_text-write_text (String.◌∷◌ c t) rest =
    ap (λ (p : String × String). let q : String × String = (String.◌∷◌ c p.0, p.1) in q)
      (read_text-write_text t rest)

-- An optional field is a number, 0 where it is missing, and what it holds.
abbrev write_option : {A : Type 0} → (A → String → String) → Option A → String → String
write_option w none rest = write_number 0 rest
write_option w (some x) rest = write_number 1 (w x rest)

abbrev read_option : {A : Type 0} → (String → A × String) → String → Option A × String
read_option r s =
    let (n, rest) = read_number s in
    elim n [ zero ↦ (none, rest) | suc m ↦ (let (x, more) = r rest in (some x, more)) ]

read_option-write_option :
    {A : Type 0} (w : A → String → String) (r : String → A × String)
    → ((x : A) (rest : String) → r (w x rest) ≡ (x, rest))
    → (o : Option A) (rest : String) → read_option r (write_option w o rest) ≡ (o, rest)
read_option-write_option w r h none rest = refl
read_option-write_option {A} w r h (some x) rest =
    ap (λ (p : A × String). let q : Option A × String = (some p.0, p.1) in q) (h x rest)

abbrev write_claims : Claims → String
write_claims c = write_option write_text c.sub (
    write_option write_text c.email (
      write_option write_text c.role (
        write_number c.exp (
          write_option write_text c.kind (
            write_option write_number c.ver (
              write_option write_number c.token_version
                (write_option write_text c.jti (write_option write_text c.family_id ""))))))))

abbrev read_claims : String → Claims
read_claims s =
    let (sub, s1) = read_option read_text s in
    let (email, s2) = read_option read_text s1 in
    let (role, s3) = read_option read_text s2 in
    let (exp, s4) = read_number s3 in
    let (kind, s5) = read_option read_text s4 in
    let (ver, s6) = read_option read_number s5 in
    let (token_version, s7) = read_option read_number s6 in
    let (jti, s8) = read_option read_text s7 in
    let (family_id, s9) = read_option read_text s8 in
    record {
      sub = sub;
      email = email;
      role = role;
      exp = exp;
      kind = kind;
      ver = ver;
      token_version = token_version;
      jti = jti;
      family_id = family_id;
    }

texts :
    (o : Option String) (rest : String)
    → read_option read_text (write_option write_text o rest) ≡ (o, rest)
texts = read_option-write_option write_text read_text read_text-write_text

numbers :
    (o : Option ℕ) (rest : String)
    → read_option read_number (write_option write_number o rest) ≡ (o, rest)
numbers = read_option-write_option write_number read_number read_number-write_number

read_claims-write_claims : (c : Claims) → read_claims (write_claims c) ≡ c
read_claims-write_claims c =
    rw (texts, texts, texts, read_number-write_number, texts, numbers, numbers, texts, texts) refl

abbrev decode_at : ℕ → Claims → Decoded
decode_at now c = if leb now c.exp then valid c else expired

abbrev pub toy : SessionLibrary
toy = record {
  encode = write_claims;
  decode = λ now s. decode_at now (read_claims s);
  verify_password = λ password hashed. password =s= hashed;
  str_int = λ n. write_number n "";
  int_of = λ s. some (read_number s).0;
}

decode_at-valid : (now : ℕ) (c : Claims) → now ≤ c.exp → decode_at now c ≡ valid c
decode_at-valid now c h = ground arith

abbrev has_first : String → Bool
has_first String.[] = false
has_first (String.◌∷◌ c s) = true

cons-set : (c : Char) (s : String) → is_set (some (String.◌∷◌ c s)) ≡ true
cons-set c s = elim (Bool-cases (String.◌∷◌ c s =s= "")) [
  | inr h ↦ rw h refl
  | inl h ↦ (let clash : true ≡ false = ap has_first ((eq_iff _ "").0 h) in cc)
]

write_option-set :
    {A : Type 0} (w : A → String → String) (o : Option A) (rest : String)
    → is_set (some (write_option w o rest)) ≡ true
write_option-set w none rest = cons-set _ rest
write_option-set w (some x) rest = cons-set _ _

number-set : (n : ℕ) → is_set (some (write_number n "")) ≡ true
number-set zero = refl
number-set (suc n) = cons-set _ (write_number n "")

pub toy_laws : SessionLaws toy
toy_laws = record {
  decode-encode =
      λ now c h. ap (decode_at now) (read_claims-write_claims c) ∙ decode_at-valid now c h;
  encode-set = λ c. write_option-set write_text c.sub _;
  int-str = λ n. ap (λ (p : ℕ × String). some p.0) (read_number-write_number n "");
  str-set = number-set;
}

decode_at-expired : (now : ℕ) (c : Claims) → c.exp < now → decode_at now c ≡ expired
decode_at-expired now c h = ground arith

pub toy_expired : (now : ℕ) (c : Claims) → c.exp < now → toy.decode now (toy.encode c) ≡ expired
toy_expired now c h = ap (decode_at now) (read_claims-write_claims c) ∙ decode_at-expired now c h
