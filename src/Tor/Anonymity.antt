-- ===== src/Tor/Anonymity.antt =====
-- What the check of the hidden service's configuration lets through.
use mathlib.Core.Path.{subst}
use torpc.Common.{
  ℕ, ◌+◌, ◌%◌, ◌≡◌, refl, ◌⊎◌, ◌↔◌, inl, inr, arith, String, Bool, true, false, List, [], ◌∷◌,
  Option, none, some, ok, Result-split, str_eq, eq_iff, Bool-cases, or_else, head?, All,
  is_empty_text, split_whitespace, lines,
}
use torpc.Tor.{
  TorService, Files, Action, created, uncommented, second?, data_dir, is_disabling,
  is_anonymity_disabling, check_lines, tighten, ensure_data_dir, check_configuration,
}

abbrev pub FlagWords : List String → Type 0
FlagWords tokens =
    (rest : List String) × ((tokens ≡ "HiddenServiceSingleHopMode" ∷ "1" ∷ rest)
      ⊎ (tokens ≡ "HiddenServiceNonAnonymousMode" ∷ "1" ∷ rest))

-- A line of the torrc that sets one of the two flags as the check looks for them: its first words,
-- up to a comment, are the name of a flag, in this spelling, and the value 1.
abbrev pub SetsFlag : String → Type 0
SetsFlag raw = FlagWords (split_whitespace (uncommented raw))

words-disable :
    (tokens : List String)
    → ((is_disabling (or_else (head? tokens) "") (or_else (second? tokens) "")) ≡ true)
      ↔ FlagWords tokens
words-disable [] = (λ h. cc, λ (rest, e). elim e [ inl a ↦ cc | inr a ↦ cc ])
words-disable (k ∷ []) = (λ h. ground arith, λ (rest, e). elim e [ inl a ↦ cc | inr a ↦ cc ])
words-disable (k ∷ v ∷ rest) = (
  λ h. elim (Bool-cases (str_eq k "HiddenServiceSingleHopMode")) [
    | inl single ↦ (
      rest,
      inl (
          ground (
            arith,
            eq_iff k "HiddenServiceSingleHopMode",
            eq_iff k "HiddenServiceNonAnonymousMode",
            eq_iff v "1",
          )),
    )
    | inr other ↦ (
      rest,
      inr (
          ground (
            arith,
            eq_iff k "HiddenServiceSingleHopMode",
            eq_iff k "HiddenServiceNonAnonymousMode",
            eq_iff v "1",
          )),
    )
  ],
  λ (more, e). elim e [
    | inl a ↦ ground (
      arith,
      eq_iff k "HiddenServiceSingleHopMode",
      eq_iff k "HiddenServiceNonAnonymousMode",
      eq_iff v "1",
    )
    | inr a ↦ ground (
      arith,
      eq_iff k "HiddenServiceSingleHopMode",
      eq_iff k "HiddenServiceNonAnonymousMode",
      eq_iff v "1",
    )
  ],
)

is_anonymity_disabling_iff :
    (raw : String) → (is_anonymity_disabling (uncommented raw) ≡ true) ↔ SetsFlag raw
unfolding is_anonymity_disabling
is_anonymity_disabling_iff raw = words-disable (split_whitespace (uncommented raw))

empty_line : (line : String) → is_empty_text line ≡ true → is_anonymity_disabling line ≡ false
unfolding is_anonymity_disabling split_whitespace
empty_line String.[] h = refl
empty_line (String.◌∷◌ c s) h = cc

check_lines-ok :
    (allow : Bool) (idx : ℕ) (ls : List String)
    → (check_lines allow idx ls ≡ ok tt) ↔ ((allow ≡ true) ⊎ All (λ raw. SetsFlag raw → ⊥) ls)
unfolding check_lines
check_lines-ok allow idx [] = ground arith
check_lines-ok allow idx (raw ∷ ls) = ground (
  arith,
  check_lines-ok allow (idx + 1) ls,
  is_anonymity_disabling_iff raw,
  empty_line (uncommented raw),
)

-- What is asked of the data directory: it is there or can be made, and its mode becomes 0700.
pub record Secured (fs : Files) : Type 0 where
  pub present : (fs.exists data_dir ≡ true) ⊎ (fs.create_dir_all ≡ ok tt)
  pub settable : fs.set_permissions ≡ ok tt
  pub private_mode : (mode : ℕ) × (fs.mode ≡ ok mode) × (mode % 512 ≡ 448)

tighten-ok :
    (fs : Files) (done : List Action)
    → ((tighten fs done).0 ≡ ok tt)
      ↔ ((fs.set_permissions ≡ ok tt) × ((mode : ℕ) × (fs.mode ≡ ok mode) × (mode % 512 ≡ 448)))
unfolding tighten
tighten-ok fs done = elim (Result-split fs.set_permissions) [
  | inl (e, denied) ↦ ground arith
  | inr (u, set) ↦ elim (Result-split fs.mode) [
    | inl (e, lost) ↦ (λ h. ground arith, λ (s, (m, n, q)). ground arith)
    | inr (mode, read) ↦ (λ h. (set, (mode, read, ground arith)), λ (s, (m, n, q)). ground arith)
  ]
]

ensure_data_dir-ok : (fs : Files) → ((ensure_data_dir fs).0 ≡ ok tt) ↔ Secured fs
unfolding ensure_data_dir
ensure_data_dir-ok fs = elim (Bool-cases (fs.exists data_dir)) [
  | inl there ↦
      let (to, from) = tighten-ok fs [] in
      (
        λ h.
            let (set, mode) = to (ground arith) in
            record { present = inl there; settable = set; private_mode = mode },
        λ s. let done = from (s.settable, s.private_mode) in ground arith,
      )
  | inr missing ↦ elim (Result-split fs.create_dir_all) [
    | inl (e, denied) ↦ (λ h. ground arith, λ s. ground (arith, s.present))
    | inr (u, made) ↦
        let (to, from) = tighten-ok fs (created ∷ []) in
        (
          λ h.
              let (set, mode) = to (ground arith) in
              record { present = inr made; settable = set; private_mode = mode },
          λ s. let done = from (s.settable, s.private_mode) in ground arith,
        )
  ]
]

allowed_iff : (o : Option String) → (str_eq (or_else o "") "1" ≡ true) ↔ (o ≡ some "1")
allowed_iff none = (λ h. cc, λ h. cc)
allowed_iff (some v) = ground (arith, eq_iff v "1")

-- The operator allows a service that is not anonymous, or no line of the torrc sets a flag.
abbrev pub Admissible : Files → String → Type 0
Admissible fs torrc =
    (fs.allow_non_anonymous ≡ some "1") ⊎ All (λ raw. SetsFlag raw → ⊥) (lines torrc)

check_lines-Admissible :
    (fs : Files) (torrc : String)
    → (check_lines (str_eq (or_else fs.allow_non_anonymous "") "1") 0 (lines torrc) ≡ ok tt)
      ↔ Admissible fs torrc
check_lines-Admissible fs torrc =
    let (to, from) =
      check_lines-ok (str_eq (or_else fs.allow_non_anonymous "") "1") 0 (lines torrc) in
    let (set, is_set) = allowed_iff fs.allow_non_anonymous in
    (
      λ h. elim (to h) [ inl allow ↦ inl (set allow) | inr all ↦ inr all ],
      λ h. elim h [ inl allow ↦ from (inl (is_set allow)) | inr all ↦ from (inr all) ],
    )

read-check :
    (tor : TorService) (fs : Files) (torrc : String)
    → fs.exists tor.config_path ≡ true
    → fs.read_to_string tor.config_path ≡ ok torrc
    → ((check_configuration tor fs).0 ≡ ok tt) ↔ (Admissible fs torrc × Secured fs)
unfolding check_configuration
read-check tor fs torrc there read =
    let (to, from) = check_lines-Admissible fs torrc in
    let (secured, secure) = ensure_data_dir-ok fs in
    elim (Result-split
      (check_lines (str_eq (or_else fs.allow_non_anonymous "") "1") 0 (lines torrc))) [
        | inl (e, refused) ↦ (λ h. ground arith, λ (a, s). let passed = from a in ground arith)
        | inr (u, passed) ↦ (
          λ h. (to passed, secured (ground arith)),
          λ (a, s). let made = secure s in ground arith,
        )
      ]

-- The check of the configuration succeeds exactly where there is no torrc, or where the torrc can be
-- read, no line of it begins, up to a comment, with the two words `HiddenServiceSingleHopMode 1` or
-- `HiddenServiceNonAnonymousMode 1` in this spelling, or TORPC_ALLOW_NON_ANONYMOUS is 1, and the
-- data directory is there or can be made and has the mode 0700 in the end. A line that says the same
-- to Tor in another spelling, as with small letters, does not make it fail.
pub check_configuration_iff :
    (tor : TorService) (fs : Files)
    → ((check_configuration tor fs).0 ≡ ok tt) ↔ (
        (fs.exists tor.config_path ≡ false)
        ⊎ ((torrc : String) × (fs.read_to_string tor.config_path ≡ ok torrc)
            × (Admissible fs torrc × Secured fs)))
unfolding check_configuration
check_configuration_iff tor fs = elim (Bool-cases (fs.exists tor.config_path)) [
  | inr missing ↦ (λ h. inl missing, λ h. ground arith)
  | inl there ↦ elim (Result-split (fs.read_to_string tor.config_path)) [
    | inl (e, unread) ↦
        (λ h. ground arith, λ h. elim h [ inl a ↦ ground arith | inr (t, r, rest) ↦ ground arith ])
    | inr (torrc, read) ↦
        let (to, from) = read-check tor fs torrc there read in
        (
          λ h. inr (torrc, read, to h),
          λ h. elim h [
            | inl a ↦ ground arith
            | inr (t, r, rest) ↦
                let same : t ≡ torrc = cc in
                from (subst (λ x. Admissible fs x × Secured fs) same rest)
          ],
        )
  ]
]
