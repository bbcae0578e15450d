-- ===== src/Stream/Reads.antt =====
-- What it means that a parser reads back what a writer wrote, and the rules by which that is put
-- together from the parts of a parser and a writer.
use nagus.Prelude.{
  Bytes, All, Bool-cases, ==_refl, ==_of_lt, ltb, length, length-append, length-take, take,
  take-append, drop-append, prefix-split, ℕ, ◌<◌, ◌≡◌, refl, sym, ap, ◌∙◌, List, [], ◌∷◌, ◌++◌,
  append_assoc, Bool, true, false, arith, ◌⊎◌, inl, inr,
}
use nagus.Stream.{
  Error, Result, ok, err, eof, value_error, bind, Reader, pure, ◌>>=◌, check, from_result, Writer,
  ◌⊕◌, asserting, assertion, read_exact, read_byte, read_one, write_byte, read_bool, read_one_bool,
  write_bool, read_many, write_all,
}

abbrev pub Raises {ℓ} : {A : Type ℓ} → Result A → Type ℓ
Raises r = (e : Error) × (r ≡ err e)

-- What `w` writes, `r` reads as `a`, whatever follows; and `r` raises an exception on a part of it.
pub record Reads {ℓ} {A : Type ℓ} (w : Writer) (r : Reader A) (a : A) : Type ℓ where
  pub whole : (out rest : Bytes) → w ≡ ok out → r (out ++ rest) ≡ ok (a, rest)
  pub cut :
      (out front : Bytes) (x : ℕ) (back : Bytes)
      → w ≡ ok out
      → out ≡ front ++ (x ∷ back)
      → Raises (r front)

-- A writer of two parts wrote what the parts wrote.
pub ⊕-eq-ok :
    (w w' : Writer) (out : Bytes)
    → w ⊕ w' ≡ ok out
    → (a : Bytes) × (b : Bytes) × (w ≡ ok a) × (w' ≡ ok b) × (out ≡ a ++ b)
unfolding ◌⊕◌
⊕-eq-ok (ok a) (ok b) out h = (a, b, refl, refl, cc)
⊕-eq-ok (ok a) (err e) out h = cc
⊕-eq-ok (err e) w' out h = cc

-- A writer raises an exception where one of its parts does.
pub ⊕-Raises : (w w' : Writer) → Raises w' → Raises (w ⊕ w')
unfolding ◌⊕◌
⊕-Raises (ok a) w' (e, p) = (e, rw p)
⊕-Raises (err e) w' h = (e, refl)

module _ {ℓ κ} {A : Type ℓ} {B : Type κ} where
  bind-Raises :
      (r : Reader A) (k : A → Reader B) (bs : Bytes) → Raises (r bs) → Raises ((r >>= k) bs)
  unfolding ◌>>=◌
  bind-Raises r k bs (e, p) = (e, rw p)

  pub bind-ok :
      (r : Reader A) (k : A → Reader B) (bs : Bytes) {rest : Bytes} {a : A}
      → r bs ≡ ok (a, rest)
      → (r >>= k) bs ≡ k a rest
  unfolding ◌>>=◌
  bind-ok r k bs p = rw p

  module _ (w w' : Writer) (r : Reader A) (k : A → Reader B) (a : A) (b : B) (first : Reads w r a)
      (second : Reads w' (k a) b) where
    bind-whole : (out rest : Bytes) → w ⊕ w' ≡ ok out → (r >>= k) (out ++ rest) ≡ ok (b, rest)
    bind-whole out rest h =
        let (o, o', p, p', q) = ⊕-eq-ok w w' out h in
        rw (q, append_assoc o o' rest)
          (bind-ok r k _ (first.whole o (o' ++ rest) p) ∙ second.whole o' rest p')

    bind-cut :
        (out front : Bytes) (x : ℕ) (back : Bytes)
        → w ⊕ w' ≡ ok out
        → out ≡ front ++ (x ∷ back)
        → Raises ((r >>= k) front)
    bind-cut out front x back h e =
        let (o, o', p, p', q) = ⊕-eq-ok w w' out h in
        elim (prefix-split o o' front x back (sym q ∙ e)) [
          | inl (t, s) ↦ bind-Raises r k front (first.cut o front x t p s)
          | inr (f, s, t) ↦
              rw (s, bind-ok r k (o ++ f) (first.whole o f p)) (second.cut o' f x back p' t)
        ]

  -- A writer of two parts, and a parser of two parts that match them.
  pub Reads-bind :
      {w w' : Writer} {r : Reader A} (k : A → Reader B) {a : A} {b : B}
      → Reads w r a
      → Reads w' (k a) b
      → Reads (w ⊕ w') (r >>= k) b
  Reads-bind {w} {w'} {r} k {a} {b} first second = record {
    whole = bind-whole w w' r k a b first second;
    cut = bind-cut w w' r k a b first second;
  }

module _ {ℓ} {A : Type ℓ} where
  -- Nothing is claimed where the writer raises an exception.
  pub Reads-err : (e : Error) (r : Reader A) (a : A) → Reads (err e) r a
  Reads-err e r a = record { whole = λ out rest h. cc; cut = λ out front x back h. cc }

  pub Reads-pure : (a : A) → Reads (ok []) (pure a) a
  Reads-pure a = record {
    whole = λ out rest h. let e : out ≡ [] = cc in rw e;
    cut = λ out front x back h p. absurd (not_nil front x back (cc));
  }
    where
      not_nil : (front : Bytes) (x : ℕ) (back : Bytes) → [] ≡ front ++ (x ∷ back) → ⊥
      not_nil [] x back e = cc
      not_nil (_ ∷ _) x back e = cc

  -- It is enough to look at a writer that returns.
  pub Reads-if_ok :
      {w : Writer} {r : Reader A} {a : A}
      → ((out : Bytes) → w ≡ ok out → Reads (ok out) r a)
      → Reads w r a
  Reads-if_ok {w = ok out} h = h out refl
  Reads-if_ok {w = err e} {r} {a} h = Reads-err e r a

  pub Reads-asserting :
      {test : Bool} {w : Writer} {r : Reader A} {a : A}
      → (test ≡ true → Reads w r a)
      → Reads (asserting test w) r a
  unfolding asserting
  Reads-asserting {test = true} h = h refl
  Reads-asserting {test = false} {r} {a} h = Reads-err assertion r a

module _ {ℓ κ} {A : Type ℓ} {B : Type κ} where
  -- The last step of a parser, with only a value to be built after it.
  pub Reads-last :
      {w : Writer} {r : Reader A} (k : A → Reader B) {a : A} {b : B}
      → Reads w r a
      → k a ≡ pure b
      → Reads w (r >>= k) b
  Reads-last {w} {r} k {a} {b} first e = record {
    whole = λ out rest h. bind-ok r k _ (first.whole out rest h) ∙ rw e;
    cut = λ out front x back h p. bind-Raises r k front (first.cut out front x back h p);
  }

  -- The last step that reads, with tests after it.
  pub Reads-then :
      {w : Writer} {r : Reader A} (k : A → Reader B) {a : A} {b : B}
      → Reads w r a
      → Reads (ok []) (k a) b
      → Reads w (r >>= k) b
  Reads-then {w} {r} k {a} {b} first second = record {
    whole = λ out rest h. bind-ok r k _ (first.whole out rest h) ∙ second.whole [] rest refl;
    cut = λ out front x back h p. bind-Raises r k front (first.cut out front x back h p);
  }

-- A test that the value passes.
pub Reads-check {ℓ} :
    {B : Type ℓ} {w : Writer} {test : Bool} (k : Unit {0} → Reader B) (e : Error) {b : B}
    → test ≡ true
    → Reads w (k tt) b
    → Reads w (check test e >>= k) b
unfolding ◌>>=◌ check
Reads-check k e t h = rw t h

pub read_exact-append :
    (n : ℕ) (out rest : Bytes) → length out ≡ n → read_exact n (out ++ rest) ≡ ok (out, rest)
unfolding read_exact ◌>>=◌
read_exact-append n out rest e =
    rw (← e) (rw (take-append out rest, drop-append out rest) (rw (==_refl (length out))))

pub read_exact-short : (n : ℕ) (bs : Bytes) → length bs < n → read_exact n bs ≡ err eof
unfolding read_exact ◌>>=◌
read_exact-short n bs h = rw (==_of_lt (length (take n bs)) n (omega (arith, length-take n bs)))

pub Reads-exact : (n : ℕ) (out : Bytes) → length out ≡ n → Reads (ok out) (read_exact n) out
Reads-exact n out e = record {
  whole = λ o rest h. let q : o ≡ out = cc in rw q (read_exact-append n out rest e);
  cut = λ o front x back h p.
      let q : out ≡ front ++ (x ∷ back) = cc in
      (
        eof,
        read_exact-short n front (omega (arith, e, ap length q, length-append front (x ∷ back))),
      );
}

pub Result-cases {ℓ} :
    {A : Type ℓ} (r : Result A) → ((a : A) × (r ≡ ok a)) ⊎ ((e : Error) × (r ≡ err e))
Result-cases (ok a) = inl (a, refl)
Result-cases (err e) = inr (e, refl)

-- A chain of calls returns only if its first call does.
pub bind-eq-ok {ℓ κ} :
    {A : Type ℓ} {B : Type κ} (call : Result A) (rest : A → Result B) {final : B}
    → bind call rest ≡ ok final
    → (found : A) × (call ≡ ok found) × (rest found ≡ ok final)
bind-eq-ok (err e) rest eq = cc
bind-eq-ok (ok found) rest eq = (found, refl, eq)

-- A call that returns.
pub Reads-result {ℓ κ} :
    {A : Type ℓ} {B : Type κ} {w : Writer} {res : Result A} {a : A} (k : A → Reader B) {b : B}
    → res ≡ ok a
    → Reads w (k a) b
    → Reads w (from_result res >>= k) b
unfolding ◌>>=◌ from_result
Reads-result k e h = rw e h

-- A proper part of one byte is empty.
one_byte_cut :
    (v : ℕ) (front : Bytes) (x : ℕ) (back : Bytes) → v ∷ [] ≡ front ++ (x ∷ back) → front ≡ []
one_byte_cut v [] x back p = refl
one_byte_cut v (a ∷ []) x back p = cc
one_byte_cut v (a ∷ b ∷ front) x back p = cc

-- A byte that the writer writes as it stands.
pub Reads-literal : (v : ℕ) → Reads (ok (v ∷ [])) read_byte v
unfolding read_byte
Reads-literal v = record {
  whole = λ out rest h. let q : out ≡ v ∷ [] = cc in rw q;
  cut = λ out front x back h p. rw (one_byte_cut v front x back (cc)) (eof, refl);
}

pub Reads-one : (v : ℕ) → Reads (ok (v ∷ [])) read_one v
unfolding read_one
Reads-one v = record {
  whole = λ out rest h. let q : out ≡ v ∷ [] = cc in rw q;
  cut = λ out front x back h p. rw (one_byte_cut v front x back (cc)) (value_error, refl);
}

pub Reads-byte : (v : ℕ) → Reads (write_byte v) read_byte v
unfolding write_byte
Reads-byte v = elim (Bool-cases (ltb v 256)) [
  | inl t ↦ rw t (Reads-literal v)
  | inr t ↦ rw t (Reads-err value_error read_byte v)
]

pub Reads-bool : (test : Bool) → Reads (write_bool test) read_bool test
unfolding write_bool read_bool
Reads-bool true = Reads-last _ (Reads-literal 1) refl
Reads-bool false = Reads-last _ (Reads-literal 0) refl

pub Reads-one_bool : (test : Bool) → Reads (write_bool test) read_one_bool test
unfolding write_bool read_one_bool
Reads-one_bool true = Reads-last _ (Reads-one 1) refl
Reads-one_bool false = Reads-last _ (Reads-one 0) refl

module _ {ℓ κ} {A : Type ℓ} {w : A → Writer} {r : Reader A} (P : A → Type κ) where
  -- A list is read back item by item.
  pub Reads-many :
      ((x : A) → P x → Reads (w x) r x)
      → (xs : List A) → All P xs
      → Reads (write_all w xs) (read_many (length xs) r) xs
  unfolding write_all read_many
  Reads-many h [] v = Reads-pure []
  Reads-many h (x ∷ xs) (v, vs) = Reads-bind _ (h x v) (Reads-last _ (Reads-many h xs vs) refl)
