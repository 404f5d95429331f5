-- ===== src/Backups/Times.antt =====
-- The time in the key of a backup (parseObjectTime of pkg/backup/manager.go): its name is a time in UTC,
-- YYYYMMDDThhmmssZ, as time.Parse reads it.
use native_ops.Base.{
  ℕ, ◌+◌, ◌*◌, ◌-◌, ◌%◌, codes, Bool, not, ◌&&◌, ◌||◌, Option, none, some, List, [], ◌∷◌, ltb, leb,
  ◌==◌, length, take, drop, all, if◌then◌else◌,
}
use native_ops.Base.Bytes.{same, split_at_last}
use native_ops.Labels.{between}

-- what stands after the last slash
abbrev base_name : List ℕ → List ℕ
base_name key = elim (split_at_last b'/' key) [ none ↦ key | some parts ↦ parts.1 ]

-- `strings.TrimSuffix`
abbrev pub trim_suffix : List ℕ → List ℕ → List ℕ
trim_suffix suffix s =
    let kept = length s - length suffix in
    if leb (length suffix) (length s) && same (drop kept s) suffix then take kept s else s

abbrev digits_value : ℕ → List ℕ → ℕ
digits_value acc [] = acc
digits_value acc (c ∷ cs) = digits_value (10 * acc + (c - b'0')) cs

-- so many characters from a place on, as a number
abbrev number : ℕ → ℕ → List ℕ → ℕ
number from count s = digits_value 0 (take count (drop from s))

abbrev is_leap : ℕ → Bool
is_leap y = y % 4 == 0 && (not (y % 100 == 0) || y % 400 == 0)

abbrev days_in : ℕ → ℕ → ℕ
days_in y m =
    if m == 2
    then (if is_leap y then 29 else 28)
    else if m == 4 || (m == 6 || (m == 9 || m == 11))
    then 30
    else 31

abbrev all_digits : List ℕ → Bool
all_digits s = all (between b'0' b'9') s

-- time.Parse("20060102T150405Z", s), for a text of 16 characters
unfoldable pub parse_time : List ℕ → Option ℕ
parse_time s =
    let day = take 8 s in
    let clock = take 6 (drop 9 s) in
    if all_digits day
      && (all_digits clock
          && (same (take 1 (drop 8 s)) (codes "T")
              && (same (drop 15 s) (codes "Z")
                  && (between 1 12 (number 4 2 s)
                      && (between 1 (days_in (number 0 4 s) (number 4 2 s)) (number 6 2 s)
                          && (ltb (number 9 2 s) 24
                              && (ltb (number 11 2 s) 60 && ltb (number 13 2 s) 60)))))))
    then some (digits_value (digits_value 0 day) clock)
    else none

-- `parseObjectTime`
unfoldable pub parse_object_time : List ℕ → Option ℕ
unfolding parse_time
parse_object_time key =
    let base = trim_suffix (codes ".tar.gz") (base_name key) in
    if ltb (length base) 16 then none else parse_time (take 16 base)
