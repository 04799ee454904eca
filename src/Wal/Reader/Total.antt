-- ===== src/Wal/Reader/Total.antt =====
-- The loop of the reader ends on every file: each record takes bytes, and nothing panics.
use ruzu.Prelude.{
  ℕ, zero, suc, ◌+◌, ◌<◌, ◌≤◌, ◌≡◌, ◌≢◌, refl, Bool, true, false, Bool-cases, inl, inr, ◌⊎◌, Option,
  Option-cases, none, some, List, [], ◌∷◌, arith, Bytes, from_le, read_exact, Result, ok, err,
  or_fail, panic, storage_error, ◌>>=◌, ◌==◌, leb, length, take, drop,
}
use ruzu.Wal.{WalRecord, Codec}
use ruzu.Wal.Reader.{WalReader, verify, read_body, read_record, read_all}

length-drop_add : (n : ℕ) (bs : Bytes) → n ≤ length bs → length (drop n bs) + n ≡ length bs
length-drop_add zero bs h = omega arith
length-drop_add (suc n) [] h = absurd (omega arith)
length-drop_add (suc n) (b ∷ bs) h = omega (arith, length-drop_add n bs (omega arith))

read_exact_cases :
    (n : ℕ) (bs : Bytes)
    → (read_exact n bs ≡ none)
      ⊎ ((got : Bytes) × (rest : Bytes) × (read_exact n bs ≡ some (got, rest))
          × (length rest + n ≡ length bs))
unfolding read_exact
read_exact_cases n bs = elim (Bool-cases (leb n (length bs))) [
  | inl fits ↦ inr (take n bs, drop n bs, rw fits, length-drop_add n bs (ground arith))
  | inr short ↦ inl (rw short)
]

module _ {ℓ} {V : Type ℓ} (c : Codec V) where
  -- A result that leaves at most `n` bytes, or fewer than `n`.
  abbrev VerifyFits : ℕ → Result (Bytes × ℕ) → Type 0
  VerifyFits n (ok (rest, w)) = length rest ≤ n
  VerifyFits n (err e) = Unit
  VerifyFits n panic = ⊥

  abbrev BodyFits : ℕ → Result (WalRecord V × WalReader) → Type 0
  BodyFits n (ok (x, r)) = length r.rest ≤ n
  BodyFits n (err e) = Unit
  BodyFits n panic = ⊥

  abbrev Shrinks : ℕ → Result (Option (WalRecord V × WalReader)) → Type 0
  Shrinks n (ok none) = Unit
  Shrinks n (ok (some (x, r))) = length r.rest < n
  Shrinks n (err e) = Unit
  Shrinks n panic = ⊥

  verify-VerifyFits :
      (flag : Bool) (content rest : Bytes) → VerifyFits (length rest) (verify c flag content rest)
  unfolding verify
  verify-VerifyFits false content rest = omega arith
  verify-VerifyFits true content rest = elim (read_exact_cases 4 rest) [
    | inl e ↦ rw e tt
    | inr (sum, rest', e, l) ↦ rw e (elim (Bool-cases (from_le sum == c.crc content)) [
      | inl good ↦ rw good (omega (arith, l))
      | inr bad ↦ rw bad tt
    ])
  ]

  VerifyFits-le : (a b : ℕ) (m : Result (Bytes × ℕ)) → VerifyFits a m → a ≤ b → VerifyFits b m
  VerifyFits-le a b (ok (rest, w)) h le = omega arith
  VerifyFits-le a b (err e) h le = tt
  VerifyFits-le a b panic h le = h

  after_verify :
      (r : WalReader) (len n : ℕ) (content : Bytes) (m : Result (Bytes × ℕ))
      → VerifyFits n m
      → BodyFits n (
          m >>= λ p. or_fail (c.decode content) storage_error >>= λ x.
          ok (x, record r { rest = p.0; position = r.position + 4 + len + p.1 }))
  after_verify r len n content (ok (rest, w)) h = elim (Option-cases (c.decode content)) [
    | inl e ↦ rw e tt
    | inr (x, e) ↦ rw e h
  ]
  after_verify r len n content (err e) h = tt
  after_verify r len n content panic h = h

  read_body-BodyFits :
      (r : WalReader) (len : ℕ) (rest : Bytes) → BodyFits (length rest) (read_body c r len rest)
  unfolding read_body
  read_body-BodyFits r len rest = elim (read_exact_cases len rest) [
    | inl e ↦ rw e tt
    | inr (got, rest', e, l) ↦ rw e (
        after_verify r len (length rest) got (verify c r.header.enable_checksums got rest') (
          VerifyFits-le (length rest') (length rest) (verify c r.header.enable_checksums got rest')
            (verify-VerifyFits r.header.enable_checksums got rest') (omega (arith, l))))
  ]

  read_record-Shrinks : (r : WalReader) → Shrinks (length r.rest) (read_record c r)
  unfolding read_record
  read_record-Shrinks r = elim (read_exact_cases 4 r.rest) [
    | inl e ↦ rw (e, read_record) tt
    | inr (len, rest, e, l) ↦
        rw (e, read_record)
          (wrap (read_body c r (from_le len) rest) (length rest) (length r.rest)
            (read_body-BodyFits r (from_le len) rest) (omega (arith, l)))
  ]
    where
      wrap :
          (m : Result (WalRecord V × WalReader)) (a b : ℕ)
          → BodyFits a m
          → a < b
          → Shrinks b (m >>= λ p. ok (some p))
      wrap (ok (x, r)) a b h lt = omega arith
      wrap (err e) a b h lt = tt
      wrap panic a b h lt = h

  bind_total :
      (x : WalRecord V) (m : Result (List (WalRecord V)))
      → m ≢ panic
      → (m >>= λ xs. ok (x ∷ xs)) ≢ panic
  bind_total x (ok xs) h e = cc
  bind_total x (err y) h e = cc
  bind_total x panic h e = h refl

  step_total :
      (m : Result (Option (WalRecord V × WalReader))) (n : ℕ)
      (f : WalReader → Result (List (WalRecord V)))
      → Shrinks n m
      → ((r : WalReader) → length r.rest < n → f r ≢ panic)
      → elim m as (λ _. Result (List (WalRecord V))) [
        | ok none ↦ ok []
        | ok (some (x, r)) ↦ f r >>= λ xs. ok (x ∷ xs)
        | err e ↦ err e
        | panic ↦ panic
      ]
        ≢ panic
  step_total (ok none) n f h k e = cc
  step_total (ok (some (x, r))) n f h k e = bind_total x (f r) (k r h) e
  step_total (err x) n f h k e = cc
  step_total panic n f h k e = h

  -- With more fuel than bytes left, on any bytes and for any codec, the loop of `read_all` ends
  -- with records or an error: it neither panics nor runs out of fuel.
  pub read_all_total : (fuel : ℕ) (r : WalReader) → length r.rest < fuel → read_all c fuel r ≢ panic
  unfolding read_all
  read_all_total zero r h = absurd (omega arith)
  read_all_total (suc fuel) r h =
      step_total (read_record c r) (length r.rest) (read_all c fuel) (read_record-Shrinks r)
        (λ r' lt. read_all_total fuel r' (omega arith))
