-- ===== src/Audit/Writes.antt =====
-- What `write_audit` of backend/app/services/audit/audit_service.py leaves for `verify_chain`.
use text.Mathlib.TextLemmas.{append_cancel_left, append_assoc}
use trust_shield.Base.{
  ℕ, String, Option, none, some, true, false, List, [], ◌∷◌, ◌++◌, ◌≡◌, ◌≢◌, refl, sym, ap, ◌∙◌,
  All, length, length-append, ◌+◌, arith, eq_iff, or_text, ◌<>◌, some_inj,
}
use trust_shield.Audit.{
  AuditLog, AuditCall, audit_payload, compute_hash, expected_of, stored_user, stored_time,
  verify_chain, write_audit, audit_row, get_last_hash,
}
use trust_shield.Audit.Chain.{IsLinked, hash_after, verify_chain_iff, verify_chain_first_bad}

-- Moving a separator between two fields does not change the text that is hashed, so that the chain
-- cannot tell an action "a|b" on type "c" from an action "a" on type "b|c", for any texts.
pub audit_payload_shift :
    (prev a b c id time user tenant : String)
    → audit_payload prev (a <> "|" <> b) c id time user tenant
      ≡ audit_payload prev a (b <> "|" <> c) id time user tenant
unfolding audit_payload
audit_payload_shift prev a b c id time user tenant = simp append_assoc

-- The tenant is the last part of the text that is hashed, and can be read back from it.
audit_payload_tenant :
    (prev action type id time user x y : String)
    → audit_payload prev action type id time user x ≡ audit_payload prev action type id time user y
    → x ≡ y
unfolding audit_payload
audit_payload_tenant prev action type id time user x y h =
    let cut = λ (a t u : String) (e : a <> "|" <> t ≡ a <> "|" <> u).
      append_cancel_left "|" t u (append_cancel_left a _ _ e) in
    cut user _ _ (cut time _ _ (cut id _ _ (cut type _ _ (cut action _ _ (cut prev _ _ h)))))

or_text-empty : (s : String) → or_text (some s) "" ≡ s
or_text-empty s = ground (arith, eq_iff s "")

module _ {T : Type 0} where
  get_last_hash-eq-hash_after :
      (p : Option String) (e : AuditLog T) (es : List (AuditLog T))
      → get_last_hash (e ∷ es) ≡ hash_after p (e ∷ es)
  unfolding get_last_hash
  get_last_hash-eq-hash_after p e [] = refl
  get_last_hash-eq-hash_after p e (f ∷ fs) = get_last_hash-eq-hash_after e.entry_hash f fs

  last_hash : (db : List (AuditLog T)) → get_last_hash db ≡ hash_after none db
  unfolding get_last_hash
  last_hash [] = refl
  last_hash (e ∷ es) = get_last_hash-eq-hash_after none e es

-- The text whose hash the verification expects of a row behind `p`.
abbrev pub row_payload :
    {T : Type 0} → (T → String) → (ℕ → String) → Option String → AuditLog T → String
row_payload isoformat str_int p e =
    audit_payload (or_text p "genesis") e.action (or_text e.resource_type "")
      (or_text e.resource_id "") (stored_time isoformat e.created_at)
      (stored_user str_int e.user_id) ""

module _ {T : Type 0} (sha256_hex : String → String) (isoformat : T → String)
    (str_int : ℕ → String) where
  -- The rows that `write_audit` and the verification agree on.
  pub record IsHonest (c : AuditCall T) : Type 0 where
    pub no_tenant : c.tenant_id ≡ ""
    pub one_clock : isoformat c.hashed_at ≡ isoformat c.stored_at
    pub real_user : c.user_id ≢ 0

  pub write_all : List (AuditCall T) → List (AuditLog T) → List (AuditLog T)
  write_all [] db = db
  write_all (c ∷ cs) db = write_all cs (write_audit sha256_hex isoformat str_int c db)

  abbrev Linked : Option String → List (AuditLog T) → Type 0
  Linked = IsLinked sha256_hex isoformat str_int

  IsLinked-append :
      (p : Option String) (es fs : List (AuditLog T))
      → Linked p es
      → Linked (hash_after p es) fs
      → Linked p (es ++ fs)
  IsLinked-append p [] fs h k = k
  IsLinked-append p (e ∷ es) fs h k = (h.0, IsLinked-append e.entry_hash es fs h.1 k)

  IsLinked-prefix :
      (p : Option String) (es fs : List (AuditLog T))
      → Linked p (es ++ fs)
      → Linked p es × Linked (hash_after p es) fs
  IsLinked-prefix p [] fs h = (tt, h)
  IsLinked-prefix p (e ∷ es) fs h =
      let (a, b) = IsLinked-prefix e.entry_hash es fs h.1 in ((h.0, a), b)

  -- The hash that the verification expects of a written row leaves the tenant out.
  expected_of-audit_row :
      (p : Option String) (c : AuditCall T)
      → c.user_id ≢ 0
      → expected_of sha256_hex isoformat str_int p (audit_row sha256_hex isoformat str_int p c)
        ≡ compute_hash sha256_hex isoformat str_int
            (or_text p "genesis")
            c.action
            c.resource_type
            c.resource_id
            (isoformat c.stored_at)
            (str_int c.user_id)
            ""
  unfolding expected_of audit_row stored_user stored_time
  expected_of-audit_row p c real =
      rw (or_text-empty c.resource_type, or_text-empty c.resource_id)
        (ap
          (λ u.
            compute_hash sha256_hex isoformat str_int (or_text p "genesis") c.action c.resource_type
              c.resource_id (isoformat c.stored_at) u "")
          (ground arith))

  -- A write without a tenant, by a user other than 0, that stores the instant it hashed keeps the
  -- log linked.
  pub write_audit-IsLinked :
      (c : AuditCall T) (db : List (AuditLog T))
      → IsHonest c
      → Linked none db
      → Linked none (write_audit sha256_hex isoformat str_int c db)
  unfolding write_audit
  write_audit-IsLinked c db h l =
      rw last_hash (IsLinked-append none db _ l (ap some (honest (hash_after none db)), tt))
    where
      honest :
          (p : Option String)
          → compute_hash sha256_hex isoformat str_int
              (or_text p "genesis")
              c.action
              c.resource_type
              c.resource_id
              (isoformat c.hashed_at)
              (str_int c.user_id)
              c.tenant_id
            ≡ expected_of sha256_hex isoformat str_int p
                (audit_row sha256_hex isoformat str_int p c)
      honest p = rw (expected_of-audit_row p c h.real_user, h.no_tenant, h.one_clock)

  write_all-IsLinked :
      (cs : List (AuditCall T)) (db : List (AuditLog T))
      → All IsHonest cs
      → Linked none db
      → Linked none (write_all cs db)
  unfolding write_all
  write_all-IsLinked [] db h l = l
  write_all-IsLinked (c ∷ cs) db h l =
      write_all-IsLinked cs (write_audit sha256_hex isoformat str_int c db) h.1
        (write_audit-IsLinked c db h.0 l)

  length-write_all :
      (cs : List (AuditCall T)) (db : List (AuditLog T))
      → length (write_all cs db) ≡ length db + length cs
  unfolding write_all write_audit
  length-write_all [] db = omega arith
  length-write_all (c ∷ cs) db = omega (
    arith,
    length-write_all cs (write_audit sha256_hex isoformat str_int c db),
    length-append {0} db,
  )

  -- A log that is written by calls without a tenant, by users other than 0, that store the instant
  -- they hashed, verifies, and every row of it is checked.
  pub written_log_verifies :
      (cs : List (AuditCall T))
      → All IsHonest cs
      → let report = verify_chain sha256_hex isoformat str_int none none (write_all cs []) in
        (report.valid ≡ true) × (report.checked ≡ length cs)
  written_log_verifies cs h =
      let db = write_all cs [] in
      let (valid, counted) = verify_chain_iff sha256_hex isoformat str_int db in
      (valid.1 (write_all-IsLinked cs [] h tt), omega (arith, counted, length-write_all cs []))

  tenant_unlinked :
      ((a b : String) → sha256_hex a ≡ sha256_hex b → a ≡ b)
      → (c : AuditCall T) (p : Option String) → c.tenant_id ≢ ""
      → isoformat c.hashed_at ≡ isoformat c.stored_at
      → c.user_id ≢ 0
      → (audit_row sha256_hex isoformat str_int p c).entry_hash
        ≢ some (
            expected_of sha256_hex isoformat str_int p (audit_row sha256_hex isoformat str_int p c))
  unfolding audit_row compute_hash
  tenant_unlinked inj c p tenant clock real q =
      let same_hash = some_inj (q ∙ ap some (expected_of-audit_row p c real)) in
      tenant (audit_payload_tenant _ _ _ _ _ _ _ _ (rw clock at (inj _ _ same_hash)))

  -- If the hash has no collisions, a write for a tenant, by a user other than 0, breaks the
  -- verification of a log that verified before: its own row is reported as the first bad one.
  pub tenant_write_fails :
      ((a b : String) → sha256_hex a ≡ sha256_hex b → a ≡ b)
      → (c : AuditCall T) (db : List (AuditLog T)) → c.tenant_id ≢ ""
      → isoformat c.hashed_at ≡ isoformat c.stored_at
      → c.user_id ≢ 0
      → (verify_chain sha256_hex isoformat str_int none none db).valid ≡ true
      → let report =
          verify_chain sha256_hex isoformat str_int none none
            (write_audit sha256_hex isoformat str_int c db) in
        (report.valid ≡ false) × (report.first_bad_entry_id ≡ some c.new_id)
  unfolding write_audit
  tenant_write_fails inj c db tenant clock real v =
      let l = (verify_chain_iff sha256_hex isoformat str_int db).0.0 v in
      let row = audit_row sha256_hex isoformat str_int (get_last_hash db) c in
      let r =
        verify_chain_first_bad sha256_hex isoformat str_int db row [] l
          (λ q. tenant_unlinked inj c (hash_after none db) tenant clock real (rw last_hash at q)) in
      (r.0, r.1)

  -- If the hash has no collisions, a row of a linked log that is replaced by one with the same
  -- stored hash and other hashed text is reported as the first bad row, under its id.
  pub tampered_row_reported :
      ((a b : String) → sha256_hex a ≡ sha256_hex b → a ≡ b)
      → (before : List (AuditLog T)) (e e' : AuditLog T) (after : List (AuditLog T))
      → Linked none (before ++ e ∷ after)
      → e'.entry_hash ≡ e.entry_hash
      → row_payload isoformat str_int (hash_after none before) e'
        ≢ row_payload isoformat str_int (hash_after none before) e
      → let report = verify_chain sha256_hex isoformat str_int none none (before ++ e' ∷ after) in
        (report.valid ≡ false) × (report.first_bad_entry_id ≡ some e'.id)
  unfolding expected_of compute_hash
  tampered_row_reported inj before e e' after l same differ =
      let (lb, le) = IsLinked-prefix none before (e ∷ after) l in
      let r =
        verify_chain_first_bad sha256_hex isoformat str_int before e' after lb
          (λ q. differ (inj _ _ (some_inj (sym q ∙ same ∙ le.0)))) in
      (r.0, r.1)
