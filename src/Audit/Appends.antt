-- ===== src/Audit/Appends.antt =====
-- Appending to a valid log keeps it valid, and a reopened log is in the state of the one that
-- wrote the file.
use arp.Common.{
  ℕ, ◌+◌, ◌≡◌, refl, String, inl, inr, true, Option, none, some, Bool-cases, Option-cases, List, [],
  ◌∷◌, ◌++◌, arith, Eq, length, length-append, last?, last?_cons, sym, or_else, All,
}
use arp.Audit.{
  EntryInput, AuditEntry, Codec, IsCodec, AuditLog, VerifyResult, verify_file, file_lines,
  load_tail_state, open_audit_log, append, append_all,
}
use arp.Audit.Lines.{IsWhole, is_blank, lines, lines-append, lines_nil, AllBlank-lines}
use arp.Audit.Chain.{IsChain, Holds, verify_from_sound, verify_from_complete}
use mathlib.Core.Path.{subst}
use mathlib.Core.Option.{some-injective}
use mathlib.Core.List.{append_assoc}

abbrev pub passed : ℕ → VerifyResult
passed n = record { valid = true; entries_seen = n; first_break_at = none; error = none }

module _ {S H : Type 0} ⦃e : Eq H⦄ (c : Codec S H) where
  -- the hash that the next entry links to
  abbrev pub tip : H → List (AuditEntry H) → H
  tip prev [] = prev
  tip prev (x ∷ xs) = tip x.self_hash xs

  -- An open log agrees with the entries of its file.
  pub record IsSound (log : AuditLog S H) (xs : List (AuditEntry H)) : Type 0 where
    pub whole : IsWhole c.alphabet (or_else log.file [])
    pub held : Holds c (file_lines c.alphabet log.file) xs
    pub chain : IsChain c 0 c.genesis xs
    pub seq : log.state.seq ≡ length xs
    pub linked : log.state.prev_hash ≡ tip c.genesis xs

  Holds-concat :
      (ls : List (List S)) (xs : List (AuditEntry H)) (l : List S) (x : AuditEntry H)
      → Holds c ls xs
      → c.parse l ≡ some x
      → Holds c (ls ++ l ∷ []) (xs ++ x ∷ [])
  Holds-concat [] [] l x h p = (p, tt)
  Holds-concat [] (y ∷ ys) l x h p = elim h [ ]
  Holds-concat (k ∷ ls) [] l x h p = elim h [ ]
  Holds-concat (k ∷ ls) (y ∷ ys) l x (q, h) p = (q, Holds-concat ls ys l x h p)

  IsChain-concat :
      (i : ℕ) (prev : H) (xs : List (AuditEntry H)) (x : AuditEntry H)
      → IsChain c i prev xs
      → x.seq ≡ i + length xs
      → x.prev_hash ≡ tip prev xs
      → x.self_hash ≡ c.hash_jcs x.base
      → IsChain c i prev (xs ++ x ∷ [])
  IsChain-concat i prev [] x h p q r = (omega arith, q, r, tt)
  IsChain-concat i prev (y ∷ ys) x (a, b, d, h) p q r =
      (a, b, d, IsChain-concat (i + 1) y.self_hash ys x h (omega arith) q r)

  tip-concat :
      (prev : H) (xs : List (AuditEntry H)) (x : AuditEntry H)
      → tip prev (xs ++ x ∷ []) ≡ x.self_hash
  tip-concat prev [] x = refl
  tip-concat prev (y ∷ ys) x = tip-concat y.self_hash ys x

  -- the last line gives the state after the last entry
  last_line :
      (i : ℕ) (prev : H) (ls : List (List S)) (xs : List (AuditEntry H)) (l : List S)
      → Holds c ls xs
      → IsChain c i prev xs
      → last? ls ≡ some l
      → (x : AuditEntry H) × (c.parse l ≡ some x)
        × (x.seq + 1 ≡ i + length xs)
        × (x.self_hash ≡ tip prev xs)
  last_line i prev [] xs l h ch p = cc
  last_line i prev (k ∷ ls) [] l h ch p = elim h [ ]
  last_line i prev (k ∷ []) (x ∷ []) l (g, h) (a, b, d, ch) p = (x, ground arith, omega arith, refl)
  last_line i prev (k ∷ []) (x ∷ y ∷ ys) l (g, h) ch p = elim h [ ]
  last_line i prev (k ∷ m ∷ ls) (x ∷ ys) l (g, h) (a, b, d, ch) p =
      let (z, q, r, s) = last_line (i + 1) x.self_hash (m ∷ ls) ys l h ch p in
      (z, q, omega arith, s)

  no_line :
      (ls : List (List S)) (xs : List (AuditEntry H)) → Holds c ls xs → last? ls ≡ none → xs ≡ []
  no_line [] [] h p = refl
  no_line [] (x ∷ xs) h p = elim h [ ]
  no_line (l ∷ ls) xs h p = absurd (last?_cons l ls p)

  blank_file :
      IsCodec c
      → (ls : List (List S)) (xs : List (AuditEntry H)) → All (λ l. is_blank c.alphabet l ≡ true) ls
      → Holds c ls xs
      → xs ≡ []
  blank_file laws [] [] b h = refl
  blank_file laws [] (x ∷ xs) b h = elim h [ ]
  blank_file laws (l ∷ ls) [] b h = refl
  blank_file laws (l ∷ ls) (x ∷ xs) (b, bs) (g, h) = cc (laws.parse-blank l b)

  length-Holds :
      (ls : List (List S)) (xs : List (AuditEntry H)) → Holds c ls xs → length ls ≡ length xs
  length-Holds [] [] h = refl
  length-Holds [] (x ∷ xs) h = elim h [ ]
  length-Holds (l ∷ ls) [] h = elim h [ ]
  length-Holds (l ∷ ls) (x ∷ xs) (g, h) = omega (arith, length-Holds ls xs h)

  -- The tail state is that of the entries in the file.
  pub load_tail_state_lem :
      IsCodec c
      → (file : Option (List S)) (xs : List (AuditEntry H))
      → Holds c (file_lines c.alphabet file) xs
      → IsChain c 0 c.genesis xs
      → load_tail_state c file ≡ some (record { seq = length xs; prev_hash = tip c.genesis xs })
  unfolding load_tail_state
  load_tail_state_lem laws none [] h ch = refl
  load_tail_state_lem laws none (x ∷ xs) h ch = elim h [ ]
  load_tail_state_lem laws (some s) xs h ch = elim (Bool-cases (is_blank c.alphabet s)) [
    | inl blank ↦
        let empty = blank_file laws (lines c.alphabet s) xs (AllBlank-lines c.alphabet s blank) h in
        rw (blank, empty)
    | inr text ↦ elim (Option-cases (last? (lines c.alphabet s))) [
      | inl nothing ↦
          let empty = no_line (lines c.alphabet s) xs h nothing in rw (text, nothing, empty)
      | inr (l, found) ↦
          let (x, p, q, r) = last_line 0 c.genesis (lines c.alphabet s) xs l h ch found in
          rw (text, found, p) (ground (arith, q, r))
    ]
  ]

  lines-or_else :
      (file : Option (List S)) → lines c.alphabet (or_else file []) ≡ file_lines c.alphabet file
  lines-or_else none = lines_nil c.alphabet
  lines-or_else (some s) = refl

  append-IsSound :
      IsCodec c
      → (now : String) (input : EntryInput) (log : AuditLog S H) (xs : List (AuditEntry H))
      → IsSound log xs
      → IsSound (append c now input log).1 (xs ++ (append c now input log).0 ∷ [])
  unfolding append
  append-IsSound laws now input log xs s =
      let x = (append c now input log).0 in
      let line = c.stringify x in
      record {
        whole = inr (or_else log.file [] ++ line, sym (append_assoc (or_else log.file []) line _));
        held =
            rw
              (lines-append c.alphabet (or_else log.file []) line s.whole (laws.one_line x)
                (laws.not_blank x))
              (Holds-concat _ xs line x (rw (lines-or_else log.file) s.held)
                (laws.parse-stringify x));
        chain = IsChain-concat 0 c.genesis xs x s.chain (omega (arith, s.seq)) s.linked refl;
        seq = omega (arith, s.seq, length-append xs (x ∷ []));
        linked = sym (tip-concat c.genesis xs x);
      }

  pub append_all-IsSound :
      IsCodec c
      → (inputs : List (String × EntryInput)) (log : AuditLog S H) (xs : List (AuditEntry H))
      → IsSound log xs
      → (ys : List (AuditEntry H)) × IsSound (append_all c inputs log) ys
        × (length ys ≡ length xs + length inputs)
  unfolding append_all
  append_all-IsSound laws [] log xs s = (xs, s, omega arith)
  append_all-IsSound laws ((now, input) ∷ rest) log xs s =
      let s' = append-IsSound laws now input log xs s in
      let (ys, r, n) = append_all-IsSound laws rest _ _ s' in
      (ys, r, omega (arith, n, length-append xs (_ ∷ [])))

  verify_of_IsSound :
      (log : AuditLog S H) (xs : List (AuditEntry H))
      → IsSound log xs
      → verify_file c log.file ≡ passed (length xs)
  unfolding verify_file
  verify_of_IsSound log xs s =
      let p =
        verify_from_complete c 0 c.genesis (file_lines c.alphabet log.file) xs s.held s.chain in
      rw p (ground (arith, length-Holds (file_lines c.alphabet log.file) xs s.held))

  reopen_of_IsSound :
      IsCodec c
      → (log : AuditLog S H) (xs : List (AuditEntry H)) → IsSound log xs
      → open_audit_log c log.file ≡ some log
  unfolding open_audit_log
  reopen_of_IsSound laws log xs s =
      rw (load_tail_state_lem laws log.file xs s.held s.chain, open_audit_log)
        (ground (arith, s.seq, s.linked))

  -- A log that was opened on a valid file of whole lines is sound.
  pub open-IsSound :
      IsCodec c
      → (file : Option (List S)) (log : AuditLog S H) → IsWhole c.alphabet (or_else file [])
      → (verify_file c file).valid ≡ true
      → open_audit_log c file ≡ some log
      → (xs : List (AuditEntry H)) × IsSound log xs × (verify_file c file ≡ passed (length xs))
  unfolding open_audit_log verify_file
  open-IsSound laws file log w v o =
      let (xs, h, ch) = verify_from_sound c 0 c.genesis (file_lines c.alphabet file) v in
      let opened : AuditLog S H = record {
        file = file;
        state = record { seq = length xs; prev_hash = tip c.genesis xs };
      } in
      let same : some opened ≡ some log =
        rw (load_tail_state_lem laws file xs h ch, open_audit_log) at o in
      let sound : IsSound opened xs = record {
        whole = w;
        held = h;
        chain = ch;
        seq = refl;
        linked = refl;
      } in
      (
        xs,
        subst (λ l. IsSound l xs) (some-injective opened log same) sound,
        verify_of_IsSound opened xs sound,
      )

-- Open a log on a missing file, or on a file of whole lines that verifies, and append any entries:
-- the file verifies with exactly as many entries more, no break, and opening it again gives the
-- state that the log is in.
pub verify-append_all :
    {S H : Type 0} ⦃e : Eq H⦄ (c : Codec S H)
    → IsCodec c
    → (file : Option (List S)) (log : AuditLog S H) (inputs : List (String × EntryInput))
    → IsWhole c.alphabet (or_else file [])
    → (verify_file c file).valid ≡ true
    → open_audit_log c file ≡ some log
    → (verify_file c (append_all c inputs log).file
        ≡ passed ((verify_file c file).entries_seen + length inputs))
      × (open_audit_log c (append_all c inputs log).file ≡ some (append_all c inputs log))
verify-append_all c laws file log inputs w v o =
    let (xs, s, seen) = open-IsSound c laws file log w v o in
    let (ys, r, n) = append_all-IsSound c laws inputs log xs s in
    (rw (verify_of_IsSound c _ ys r, n, seen), reopen_of_IsSound c laws _ ys r)
