-- ===== src/Audit/Chain.antt =====
-- The verification loop of backend/app/services/audit/audit_service.py against the chain that it
-- is meant to recognise.
use trust_shield.Base.{
  ℕ, String, Option, none, some, true, false, List, [], ◌∷◌, ◌++◌, ◌≡◌, refl, ◌↔◌, ◌+◌, arith,
  eq_iff, length, length-append, select, Bool-cases, inl, inr, or_text, is_none, ◌≢◌, ◌⊎◌, ap,
}
use trust_shield.Audit.{
  AuditLog, ChainScan, BadEntry, expected_of, hash_matches, scan_entry, scan_entries, verify_chain,
  chain_report, in_range,
}

-- The hash that the row behind `es` has to point at.
abbrev pub hash_after : {T : Type 0} → Option String → List (AuditLog T) → Option String
hash_after p [] = p
hash_after p (e ∷ es) = hash_after e.entry_hash es

module _ {T : Type 0} (sha256_hex : String → String) (isoformat : T → String)
    (str_int : ℕ → String) where
  -- Every row's hash is the hash of its fields and of the hash of the row before it.
  abbrev pub IsLinked : Option String → List (AuditLog T) → Type 0
  IsLinked p [] = Unit
  IsLinked p (e ∷ es) =
      (e.entry_hash ≡ some (expected_of sha256_hex isoformat str_int p e))
      × IsLinked e.entry_hash es

  abbrev scan : ChainScan → List (AuditLog T) → ChainScan
  scan = scan_entries sha256_hex isoformat str_int

  hash_matches_iff : (x : String) (h : Option String) → (hash_matches x h ≡ true) ↔ (h ≡ some x)
  unfolding hash_matches
  hash_matches_iff x none = ground arith
  hash_matches_iff x (some h) = ground (arith, eq_iff x h)

  -- Once a bad row is recorded, later rows do not change it.
  first_bad_kept :
      (s : ChainScan) (b : BadEntry) (es : List (AuditLog T))
      → s.first_bad ≡ some b
      → (scan s es).first_bad ≡ some b
  unfolding scan_entries scan_entry
  first_bad_kept s b [] h = h
  first_bad_kept s b (e ∷ es) h =
      first_bad_kept (scan_entry sha256_hex isoformat str_int s e) b es (ground arith)

  first_bad-linked :
      (s : ChainScan) (es : List (AuditLog T))
      → s.first_bad ≡ none
      → IsLinked s.prev_hash es
      → (scan s es).first_bad ≡ none
  unfolding scan_entries scan_entry
  first_bad-linked s [] h l = h
  first_bad-linked s (e ∷ es) h l =
      first_bad-linked (scan_entry sha256_hex isoformat str_int s e) es
        (ground (
          arith,
          hash_matches_iff (expected_of sha256_hex isoformat str_int s.prev_hash e) e.entry_hash,
        ))
        l.1

  IsLinked-first_bad :
      (s : ChainScan) (es : List (AuditLog T))
      → s.first_bad ≡ none
      → (scan s es).first_bad ≡ none
      → IsLinked s.prev_hash es
  unfolding scan_entries scan_entry
  IsLinked-first_bad s [] h l = tt
  IsLinked-first_bad s (e ∷ es) h l =
      let expected = expected_of sha256_hex isoformat str_int s.prev_hash e in
      elim (Bool-cases (hash_matches expected e.entry_hash)) [
        | inl good ↦ (
          (hash_matches_iff expected e.entry_hash).0 good,
          IsLinked-first_bad (scan_entry sha256_hex isoformat str_int s e) es (ground arith) l,
        )
        | inr bad ↦
            let b : BadEntry = record {
              id = e.id;
              expected_hash = expected;
              actual_hash = or_text e.entry_hash "";
            } in
            cc (first_bad_kept (scan_entry sha256_hex isoformat str_int s e) b es (ground arith), l)
      ]

  -- The loop looks at every row once, in order.
  verification-scan :
      (s : ChainScan) (es : List (AuditLog T))
      → length (scan s es).verification ≡ length s.verification + length es
  unfolding scan_entries scan_entry
  verification-scan s [] = omega arith
  verification-scan s (e ∷ es) = omega (
    arith,
    verification-scan (scan_entry sha256_hex isoformat str_int s e) es,
    length-append {0} s.verification,
  )

  prev_hash-scan :
      (s : ChainScan) (es : List (AuditLog T)) → (scan s es).prev_hash ≡ hash_after s.prev_hash es
  unfolding scan_entries scan_entry
  prev_hash-scan s [] = refl
  prev_hash-scan s (e ∷ es) = prev_hash-scan (scan_entry sha256_hex isoformat str_int s e) es

  scan-append :
      (s : ChainScan) (es fs : List (AuditLog T)) → scan s (es ++ fs) ≡ scan (scan s es) fs
  unfolding scan_entries
  scan-append s [] fs = refl
  scan-append s (e ∷ es) fs = scan-append (scan_entry sha256_hex isoformat str_int s e) es fs

  select_all : (db : List (AuditLog T)) → select (in_range none none) db ≡ db
  unfolding in_range
  select_all [] = refl
  select_all (e ∷ es) = cc (select_all es)

  abbrev start : ChainScan
  start = record { verification = []; prev_hash = none; first_bad = none }

  -- A full verification reports a valid chain exactly when every row's hash is the hash of its own
  -- fields, without a tenant, behind the hash of the row before it; it always checks every row.
  pub verify_chain_iff :
      (db : List (AuditLog T))
      → let report = verify_chain sha256_hex isoformat str_int none none db in
        ((report.valid ≡ true) ↔ IsLinked none db) × (report.checked ≡ length db)
  unfolding verify_chain chain_report
  verify_chain_iff db = rw select_all (
    (
      (λ v. IsLinked-first_bad start db refl (valid-none (scan start db).first_bad v)),
      λ l. rw (first_bad-linked start db refl l),
    ),
    omega (arith, verification-scan start db),
  )
    where
      valid-none : (o : Option BadEntry) → is_none o ≡ true → o ≡ none
      valid-none none v = refl
      valid-none (some b) v = cc

  abbrev bad_entry : Option String → AuditLog T → BadEntry
  bad_entry p e = record {
    id = e.id;
    expected_hash = expected_of sha256_hex isoformat str_int p e;
    actual_hash = or_text e.entry_hash "";
  }

  first_bad_found :
      (s : ChainScan) (before : List (AuditLog T)) (e : AuditLog T) (after : List (AuditLog T))
      → s.first_bad ≡ none
      → IsLinked s.prev_hash before
      → e.entry_hash
        ≢ some (expected_of sha256_hex isoformat str_int (hash_after s.prev_hash before) e)
      → (scan s (before ++ e ∷ after)).first_bad
        ≡ some (bad_entry (hash_after s.prev_hash before) e)
  unfolding scan_entries scan_entry
  first_bad_found s [] e after h l bad =
      first_bad_kept (scan_entry sha256_hex isoformat str_int s e) (bad_entry s.prev_hash e) after (
        ground (
          arith,
          hash_matches_iff (expected_of sha256_hex isoformat str_int s.prev_hash e) e.entry_hash,
        ))
  first_bad_found s (x ∷ xs) e after h l bad =
      first_bad_found (scan_entry sha256_hex isoformat str_int s x) xs e after
        (ground (
          arith,
          hash_matches_iff (expected_of sha256_hex isoformat str_int s.prev_hash x) x.entry_hash,
        ))
        l.1 bad

  -- The report names the first row that does not fit: if the rows before a row are linked, and that
  -- row's hash is not the expected one, then the chain is invalid, and the row's id and the
  -- expected hash are the ones reported, whatever follows.
  pub verify_chain_first_bad :
      (before : List (AuditLog T)) (e : AuditLog T) (after : List (AuditLog T))
      → IsLinked none before
      → e.entry_hash ≢ some (expected_of sha256_hex isoformat str_int (hash_after none before) e)
      → let report = verify_chain sha256_hex isoformat str_int none none (before ++ e ∷ after) in
        (report.valid ≡ false)
        × (report.first_bad_entry_id ≡ some e.id)
        × (report.expected_hash
            ≡ expected_of sha256_hex isoformat str_int (hash_after none before) e)
        × (report.actual_hash ≡ or_text e.entry_hash "")
  unfolding verify_chain chain_report
  verify_chain_first_bad before e after l bad =
      rw select_all (rw (first_bad_found start before e after refl l bad) (refl, refl, refl, refl))

  -- The first row whose hash is not the one that the rows before it ask for.
  abbrev pub FirstBreak :
      Option String → List (AuditLog T) → (before : List (AuditLog T)) (e : AuditLog T) → Type 0
  FirstBreak p db before e =
      ((after : List (AuditLog T)) × (db ≡ before ++ e ∷ after))
      × IsLinked p before
      × (e.entry_hash ≢ some (expected_of sha256_hex isoformat str_int (hash_after p before) e))

  -- A log is linked or has a first row that breaks it.
  pub IsLinked-cases :
      (p : Option String) (db : List (AuditLog T))
      → IsLinked p db ⊎ ((before : List (AuditLog T)) × (e : AuditLog T) × FirstBreak p db before e)
  IsLinked-cases p [] = inl tt
  IsLinked-cases p (e ∷ es) =
      let expected = expected_of sha256_hex isoformat str_int p e in
      let same = hash_matches_iff expected e.entry_hash in
      elim (Bool-cases (hash_matches expected e.entry_hash)) [
        | inr bad ↦ inr ([], e, ((es, refl), tt, λ h. (let good = same.1 h in cc)))
        | inl good ↦ elim (IsLinked-cases e.entry_hash es) [
          | inl l ↦ inl (same.0 good, l)
          | inr (before, x, ((after, q), l, bad)) ↦
              inr (e ∷ before, x, ((after, ap (λ xs. e ∷ xs) q), (same.0 good, l), bad))
        ]
      ]
