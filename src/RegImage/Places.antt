-- ===== src/RegImage/Places.antt =====
-- The variables that the maps of RegImage.cpp point to: from the reader of the file on.
use Prim.Native.String.{String}
use turbine_governor.Base.{
  ℕ, zero, suc, ◌≤◌, ◌<◌, ◌≡◌, refl, inl, inr, Bool, true, false, not, ◌&&◌, Option, none, some,
  List, [], ◌∷◌, ◌++◌, length, length-append, ◌==◌, Bool-cases, Option-cases, arith,
}
use turbine_governor.Base.Dict
use turbine_governor.Types.{same_addr}
use turbine_governor.Xml.{same_text}
use turbine_governor.RegImage.Image.{RegVar, RegImage}
use turbine_governor.RegImage.Info.{
  Token, Attrs, Scan, Parsed, attr, note_token, scan_var, new_scan, add_var, parse_scanned,
  parse_xml_var, read_vars, failed, info_of, read_next_start_element, parse_reg_io_info,
}

module _ {K : Type 0} where
  -- All values of a map are below a number.
  unfoldable pub Below : ℕ → List (K × ℕ) → Type 0
  Below n [] = Unit
  Below n ((k, p) ∷ m) = (p < n) × Below n m

  pub Below-mono : (n k : ℕ) (m : List (K × ℕ)) → n ≤ k → Below n m → Below k m
  unfolding Below
  Below-mono n k [] le h = tt
  Below-mono n k ((j, p) ∷ m) le (here, later) = (omega arith, Below-mono n k m le later)

  pub insert_new-Below :
      (same : K → K → Bool) (k : K) (n : ℕ) (m : List (K × ℕ))
      → Below n m
      → Below (suc n) (Dict.insert_new same k n m)
  unfolding Below Dict.insert_new
  insert_new-Below same k n [] h = (omega arith, tt)
  insert_new-Below same k n ((j, p) ∷ m) (here, later) = elim (Bool-cases (same j k)) [
    | inl e ↦ rw e (omega arith, Below-mono n (suc n) m (omega arith) later)
    | inr e ↦ rw e (omega arith, insert_new-Below same k n m later)
  ]

  pub lookup-Below :
      (same : K → K → Bool) (k : K) (n : ℕ) (m : List (K × ℕ)) (p : ℕ)
      → Below n m
      → Dict.lookup same k m ≡ some p
      → p < n
  unfolding Below Dict.lookup
  lookup-Below same k n [] p h e = absurd (cc)
  lookup-Below same k n ((j, q) ∷ m) p (here, later) e =
      ground (arith, lookup-Below same k n m p later)

scan_var-length :
    (to_uint : String → ℕ) (ts : List Token) (v : Scan)
    → length (scan_var to_uint ts v).1 ≤ length ts
unfolding scan_var
scan_var-length to_uint [] v = omega arith
scan_var-length to_uint (t ∷ ts) v = elim (Bool-cases (v.use_read && v.addr_read)) [
  | inl done ↦ rw done (omega arith)
  | inr more ↦ rw more (omega (arith, scan_var-length to_uint ts (note_token to_uint t v)))
]

module _ {F : Type 0} where
  -- No map has a null pointer.
  pub record InPlace (s : RegImage F) : Type 0 where
    pub all_vars : Below (length s.reg_vars) s.vars
    pub all_slave : Below (length s.reg_vars) s.slave_vars
    pub all_field : Below (length s.reg_vars) s.field_vars

  length_snoc : (xs : List (RegVar F)) (v : RegVar F) → length (xs ++ (v ∷ [])) ≡ suc (length xs)
  length_snoc xs v = omega (arith, length-append xs (v ∷ []))

  pub add_var-InPlace :
      (is_field : Bool) (use_text : String) (v : RegVar F) (p : Parsed F)
      → InPlace p.image
      → InPlace (add_var is_field use_text v p).image
  unfolding add_var
  add_var-InPlace true use_text v p h = record {
    all_vars =
        rw (length_snoc p.image.reg_vars v)
          (insert_new-Below same_addr v.addr _ p.image.vars h.all_vars);
    all_slave =
        rw (length_snoc p.image.reg_vars v)
          (Below-mono _ _ p.image.slave_vars (omega arith) h.all_slave);
    all_field =
        rw (length_snoc p.image.reg_vars v)
          (insert_new-Below ◌==◌ v.var_id _ p.image.field_vars h.all_field);
  }
  add_var-InPlace false use_text v p h = record {
    all_vars =
        rw (length_snoc p.image.reg_vars v)
          (insert_new-Below same_addr v.addr _ p.image.vars h.all_vars);
    all_slave =
        rw (length_snoc p.image.reg_vars v)
          (insert_new-Below ◌==◌ v.var_id _ p.image.slave_vars h.all_slave);
    all_field =
        rw (length_snoc p.image.reg_vars v)
          (Below-mono _ _ p.image.field_vars (omega arith) h.all_field);
  }

  parse_scanned-InPlace :
      (junk : F) (id : ℕ) (is_field : Bool) (v : Scan) (p : Parsed F)
      → InPlace p.image
      → InPlace (parse_scanned junk id is_field v p).1.image
  parse_scanned-InPlace junk id is_field v p h =
      elim (Bool-cases (v.use_read && v.addr_read && not (same_text v.use_text "NO"))) [
        | inl on ↦ rw on (add_var-InPlace is_field v.use_text _ p h)
        | inr off ↦ rw off h
      ]

  -- What a reader of a variable leaves.
  abbrev Kept : List Token → Bool × Parsed F × List Token → Type 0
  Kept ts (ok, q, rest) = InPlace q.image × (length rest ≤ length ts)

  parse_xml_var-Kept :
      (to_uint : String → ℕ) (junk : F) (attrs : Attrs) (ts : List Token) (p : Parsed F)
      → InPlace p.image
      → Kept ts (parse_xml_var to_uint junk attrs ts p)
  unfolding parse_xml_var
  parse_xml_var-Kept to_uint junk attrs ts p h = elim (Option-cases (attr "ID" attrs)) [
    | inl e ↦ rw (e, parse_xml_var) (h, omega arith)
    | inr (id, e) ↦ elim (Option-cases (attr "FR" attrs)) [
      | inl e' ↦ rw (e, e', parse_xml_var) (h, omega arith)
      | inr (fr, e') ↦ elim (Bool-cases (not (same_text fr "F") && not (same_text fr "R"))) [
        | inl bad ↦ rw (e, e', bad, parse_xml_var) (h, omega arith)
        | inr good ↦
            rw (e, e', good, parse_xml_var)
              (
                parse_scanned-InPlace junk (to_uint id) (same_text fr "F")
                    (scan_var to_uint ts new_scan).0 p h,
                scan_var-length to_uint ts new_scan,
              )
      ]
    ]
  ]

  failed-InPlace : (p : Parsed F) → InPlace (failed p).1.image
  unfolding Below
  failed-InPlace p = record { all_vars = tt; all_slave = tt; all_field = tt }

  abbrev Ends : Option (Bool × Parsed F) → Type 0
  Ends o = (r : Bool × Parsed F) × (o ≡ some r) × InPlace r.1.image

  read_vars-Ends :
      (k : ℕ) (to_uint : String → ℕ) (junk : F) (ts : List Token) (p : Parsed F)
      → length ts < k
      → InPlace p.image
      → Ends (read_vars k to_uint junk ts p)
  unfolding read_vars
  read_vars-Ends zero to_uint junk ts p enough h = absurd (omega arith)
  read_vars-Ends (suc k) to_uint junk [] p enough h = ((true, p), refl, h)
  read_vars-Ends (suc k) to_uint junk (Token.start_element name attrs ∷ ts) p enough h =
      let (kept, shorter) = parse_xml_var-Kept to_uint junk attrs ts p h in
      elim (Bool-cases (same_text name "Var")) [
        | inr past ↦ rw past (read_vars-Ends k to_uint junk ts p (omega arith) h)
        | inl is_var ↦ elim (Bool-cases (parse_xml_var to_uint junk attrs ts p).0) [
          | inr bad ↦
              rw (is_var, bad)
                (
                  failed (parse_xml_var to_uint junk attrs ts p).1,
                  refl,
                  failed-InPlace (parse_xml_var to_uint junk attrs ts p).1,
                )
          | inl good ↦
              rw (is_var, good)
                (read_vars-Ends k to_uint junk (parse_xml_var to_uint junk attrs ts p).2
                  (parse_xml_var to_uint junk attrs ts p).1 (omega arith) kept)
        ]
      ]
  read_vars-Ends (suc k) to_uint junk (Token.end_element ∷ ts) p enough h =
      read_vars-Ends k to_uint junk ts p (omega arith) h
  read_vars-Ends (suc k) to_uint junk (Token.end_document ∷ ts) p enough h =
      read_vars-Ends k to_uint junk ts p (omega arith) h
  read_vars-Ends (suc k) to_uint junk (Token.other ∷ ts) p enough h =
      read_vars-Ends k to_uint junk ts p (omega arith) h

  -- The reader of the file ends, whatever the tokens of the file and what Qt makes of its numbers, and
  -- then every pointer in the three maps is that of a variable.
  pub parse_reg_io_info-ends :
      (info : Option (List Token)) (to_uint : String → ℕ) (junk : F) (p : Parsed F)
      → InPlace p.image
      → (r : Bool × Parsed F) × (parse_reg_io_info info to_uint junk p ≡ some r) × InPlace r.1.image
  unfolding parse_reg_io_info
  parse_reg_io_info-ends none to_uint junk p h = ((false, p), refl, h)
  parse_reg_io_info-ends (some ts) to_uint junk p h =
      elim (Option-cases (info_of (read_next_start_element ts))) [
        | inl e ↦ rw (e, parse_reg_io_info) (failed p, refl, failed-InPlace p)
        | inr (us, e) ↦
            rw (e, parse_reg_io_info)
              (read_vars-Ends (suc (length us)) to_uint junk us p (omega arith) h)
      ]
