-- ===== src/Conformance/Reports.antt =====
-- What a report says that is taken for one on a contract: `parse_report` of
-- collab/tools/lib/conformance.py.
use mathlib.Core.Path.{subst₂}
use ibkr_auto_trader.Prelude.{
  ◌≡◌, ◌⊎◌, inl, inr, refl, sym, ap, ◌∙◌, true, ◌&&◌, ◌||◌, Option, none, some, String, List, [],
  ◌∷◌, text_key, arith, All, Bool-cases, Option-cases,
}
use ibkr_auto_trader.Prelude.Dict.{Dict, lookup, insert, keys, contains, lookup-insert}
use ibkr_auto_trader.Prelude.Result.{Result, ok, ◌>>=◌, >>=-eq_ok}
use ibkr_auto_trader.Conformance.{
  Finding, RawRecord, RawReport, ReportError, Contract, Pointer, Place, all_listed, read_record,
  read_records, covers, is_bound_to, parse_report,
}

contains-insert :
    (k j : String) (f : Finding) (d : Dict String Finding)
    → contains j (keys (insert k f d)) ≡ (text_key.same j k || contains j (keys d))
contains-insert k j f [] = refl
contains-insert k j f ((i, g) ∷ d) =
    ground (arith, contains-insert k j f d, text_key.same_iff k i, text_key.same_iff j i)

ok_eq :
    {a b : Dict String Finding}
    → Path (Result ReportError (Dict String Finding)) (ok a) (ok b)
    → a ≡ b
ok_eq h = ground arith

listed_of :
    (ids ks : List String) (k : String)
    → all_listed ids ks ≡ true
    → contains k ks ≡ true
    → contains k ids ≡ true
listed_of ids [] k h m = absurd (ground arith)
listed_of ids (j ∷ ks) k h m = elim (Bool-cases (text_key.same k j)) [
  | inl e ↦ ap (λ x. contains x ids) ((text_key.same_iff k j).0 e) ∙ ground arith
  | inr n ↦ listed_of ids ks k (ground arith) (ground arith)
]

module _ (strip : String → String) where
  -- The record is on that requirement, and says what the finding says.
  abbrev pub IsRecordOf : String → Finding → Option RawRecord → Type 0
  IsRecordOf i f x =
      (r : RawRecord) × (raw : String) × (x ≡ some r)
      × (r.id ≡ some raw)
      × (strip raw ≡ i)
      × (r.status ≡ some f.status)
      × (r.source ≡ f.source)
      × (r.test ≡ f.test)

  -- One of the records is.
  abbrev pub IsRecorded : String → Finding → List (Option RawRecord) → Type 0
  IsRecorded i f [] = ⊥
  IsRecorded i f (x ∷ xs) = IsRecordOf i f x ⊎ IsRecorded i f xs

  -- The record is on one of the requirements.
  abbrev pub IsOnOneOf : List String → Option RawRecord → Type 0
  IsOnOneOf ids x =
      (r : RawRecord) × (raw : String) × (x ≡ some r)
      × (r.id ≡ some raw)
      × (contains (strip raw) ids ≡ true)

  -- The report names the contract by its digest, and has records on its requirements only.
  abbrev pub IsReportOn : Contract → List (Option RawRecord) → Option RawReport → Type 0
  IsReportOn c rs report =
      (q : RawReport) × (report ≡ some q)
      × (q.contract_digest ≡ some c.digest)
      × (q.requirements ≡ some rs)
      × All (IsOnOneOf c.ids) rs

  module _ (parse_pointer : String → Option Pointer) (look : String → Place) where
    read_record_lem :
        (seen more : Dict String Finding) (x : Option RawRecord)
        → read_record strip parse_pointer look seen x ≡ ok more
        → (i : String) × (f : Finding) × IsRecordOf i f x × (more ≡ insert i f seen)
    read_record_lem seen more none h = absurd (ground arith)
    read_record_lem seen more (some r) h = elim (Option-cases r.id) [
      | inl e ↦ absurd (ground arith)
      | inr (raw, e) ↦ elim (Option-cases r.status) [
        | inl s ↦ absurd (ground arith)
        | inr (s, q) ↦ (
          strip raw,
          record { status = s; source = r.source; test = r.test },
          (r, raw, refl, e, refl, q, refl, refl),
          ground arith,
        )
      ]
    ]

    read_records-IsRecorded :
        (seen found : Dict String Finding) (rs : List (Option RawRecord)) (i : String) (f : Finding)
        → read_records strip parse_pointer look seen rs ≡ ok found
        → lookup i found ≡ some f
        → (lookup i seen ≡ some f) ⊎ IsRecorded i f rs
    unfolding read_records
    read_records-IsRecorded seen found [] i f h l =
        let e : seen ≡ found = ok_eq h in inl (ap (lookup i) e ∙ l)
    read_records-IsRecorded seen found (x ∷ xs) i f h l =
        let (more, first, rest) = >>=-eq_ok (read_record strip parse_pointer look seen x) _ h in
        let (k, g, is_of, e) = read_record_lem seen more x first in
        elim (read_records-IsRecorded more found xs i f rest l) [
          | inr later ↦ inr (inr later)
          | inl now ↦
              (let known = sym (lookup-insert k i g seen) ∙ sym (ap (lookup i) e) ∙ now in
                elim (Bool-cases (text_key.same i k)) [
                  | inr n ↦ inl (ground arith)
                  | inl s ↦ inr (
                      inl (
                        subst₂ (λ j d. IsRecordOf j d x) (sym ((text_key.same_iff i k).0 s))
                          (ground arith) is_of))
                ])
        ]

    read_records-contains :
        (seen found : Dict String Finding) (rs : List (Option RawRecord))
        → read_records strip parse_pointer look seen rs ≡ ok found
        → ((k : String) → contains k (keys seen) ≡ true → contains k (keys found) ≡ true)
          × All (IsOnOneOf (keys found)) rs
    unfolding read_records
    read_records-contains seen found [] h =
        let e : seen ≡ found = ok_eq h in (λ k m. ap (λ d. contains k (keys d)) (sym e) ∙ m, tt)
    read_records-contains seen found (x ∷ xs) h =
        let (more, first, rest) = >>=-eq_ok (read_record strip parse_pointer look seen x) _ h in
        let (k, g, (r, raw, s, id, same, _, _, _), e) = read_record_lem seen more x first in
        let (grown, others) = read_records-contains more found xs rest in
        let step : (j : String)
            → contains j (keys more) ≡ (text_key.same j k || contains j (keys seen)) =
          λ j. ap (λ d. contains j (keys d)) e ∙ contains-insert k j g seen in
        (
          λ j m. grown j (step j ∙ ground arith),
          (
            (
              r,
              raw,
              s,
              id,
              ap (λ j. contains j (keys found)) same
                  ∙ grown k (step k ∙ ground (arith, text_key.same_iff k k)),
            ),
            others,
          ),
        )

    covers_lem :
        (c : Contract) (all found : Dict String Finding)
        → covers strip parse_pointer look c all ≡ ok found
        → (all_listed c.ids (keys all) ≡ true) × (all ≡ found)
    covers_lem c all found h =
        elim (Bool-cases (all_listed c.ids (keys all) && all_listed (keys all) c.ids)) [
          | inl l ↦ (ground arith, ground arith)
          | inr l ↦ absurd (ground arith)
        ]

    bound :
        (c : Contract) (d : Option String)
        → is_bound_to strip parse_pointer look c d ≡ true
        → d ≡ some c.digest
    bound c none h = absurd (ground arith)
    bound c (some d) h = ap some ((text_key.same_iff d c.digest).0 h)

    on_contract :
        (ids ks : List String) (rs : List (Option RawRecord))
        → all_listed ids ks ≡ true
        → All (IsOnOneOf ks) rs
        → All (IsOnOneOf ids) rs
    on_contract ids ks [] h a = tt
    on_contract ids ks (x ∷ xs) h ((r, raw, e, id, m), a) =
        ((r, raw, e, id, listed_of ids ks (strip raw) h m), on_contract ids ks xs h a)

    -- A report that is read is one on the contract, and each finding is one of its records.
    pub parse_report-IsReportOn :
        (c : Contract) (report : Option RawReport) (found : Dict String Finding)
        → parse_report strip parse_pointer look c report ≡ ok found
        → (rs : List (Option RawRecord)) × IsReportOn c rs report
          × ((i : String) (f : Finding) → lookup i found ≡ some f → IsRecorded i f rs)
    unfolding parse_report
    parse_report-IsReportOn c none found h = absurd (ground arith)
    parse_report-IsReportOn c (some q) found h =
        elim (Bool-cases (is_bound_to strip parse_pointer look c q.contract_digest)) [
          | inr stale ↦ absurd (ground arith)
          | inl current ↦ elim (Option-cases q.requirements) [
            | inl e ↦ absurd (ground arith)
            | inr (rs, e) ↦
                (let read : (read_records strip parse_pointer look [] rs
                        >>= covers strip parse_pointer look c)
                      ≡ ok found =
                    ground arith in
                  let (all, first, rest) =
                    >>=-eq_ok (read_records strip parse_pointer look [] rs) _ read in
                  let (listed, same) = covers_lem c all found rest in
                  let first' : read_records strip parse_pointer look [] rs ≡ ok found =
                    first ∙ ap ok same in
                  (
                    rs,
                    (
                      q,
                      refl,
                      bound c q.contract_digest current,
                      e,
                      on_contract c.ids (keys found) rs
                          (ap (λ d. all_listed c.ids (keys d)) (sym same) ∙ listed)
                          (read_records-contains [] found rs first').1,
                    ),
                    λ i f l. elim (read_records-IsRecorded [] found rs i f first' l) [
                      | inl n ↦ absurd (ground arith)
                      | inr y ↦ y
                    ],
                  ))
          ]
        ]
