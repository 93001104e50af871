-- ===== src/Scheduler/Script/Laws.antt =====
-- What infrastructure/scheduler/script.py writes into a job's header.
use workspace.Base.{
  ℕ, ◌+◌, ◌*◌, ◌/◌, ◌%◌, ◌≤◌, ◌<◌, ◌≡◌, refl, ◌==◌, leb, Bool, true, ◌&&◌, ◌||◌, [], ◌∷◌, Text,
  text, take, length, ltb, if◌then◌else◌, ap, ◌∙◌, or_else, All, reverse, digits, decimal, ◌++◌,
  ◌-◌, Option, none, some, text_eq, not, on_if, Bool-cases, inl, inr, arith,
}
use Prim.Native.Nat.{zero, suc}
use mathlib.Core.List.{reverse-cons, append_assoc}
use workspace.Scheduler.Script.{
  two_digits, walltime, clock_text, minutes_to_walltime, is_allowed, cleaned, sanitize,
}

-- The number that a text begins with, after a number that was read before, and what follows it.
abbrev is_digit : ℕ → Bool
is_digit c = leb 48 c && leb c 57

unfoldable pub read_number : ℕ → Text → ℕ × Text
read_number n [] = (n, [])
read_number n (c ∷ s) =
    let rest = read_number (n * 10 + (c - 48)) s in if is_digit c then rest else (n, c ∷ s)

-- What follows the minutes is to be `:00`.
abbrev read_seconds : ℕ → ℕ → ℕ × Text → Option ℕ
read_seconds days hours (minutes, s) =
    if text_eq s (text ":00") then some ((days * 24 + hours) * 60 + minutes) else none

abbrev read_minutes : ℕ → ℕ × Text → Option ℕ
read_minutes days (hours, []) = none
read_minutes days (hours, c ∷ s) =
    let rest = read_seconds days hours (read_number 0 s) in if c == b':' then rest else none

abbrev read_days : ℕ × Text → Option ℕ
read_days (n, []) = none
read_days (n, c ∷ s) =
    let clock = read_minutes 0 (n, c ∷ s) in
    if c == b'-' then read_minutes n (read_number 0 s) else clock

-- The minutes that a wall time stands for, written `[days-]hours:minutes:00`.
unfoldable pub minutes_of : Text → Option ℕ
unfolding read_number
minutes_of s = read_days (read_number 0 s)

-- A text that does not go on with a digit.
abbrev ends_number : Text → Bool
ends_number [] = true
ends_number (c ∷ s) = not (is_digit c)

read_number-stop : (n : ℕ) (s : Text) → ends_number s ≡ true → read_number n s ≡ (n, s)
unfolding read_number
read_number-stop n [] h = refl
read_number-stop n (c ∷ s) h = ground (arith)

read_number-digit :
    (n d : ℕ) (s : Text) → d < 10 → read_number n ((48 + d) ∷ s) ≡ read_number (n * 10 + d) s
unfolding read_number
read_number-digit n d s h =
    let e : (48 + d) - 48 ≡ d = omega arith in
    let digit : is_digit (48 + d) ≡ true = ground (arith) in rw (digit, e) refl

read_number-digits :
    (fuel n : ℕ) (s : Text)
    → n < fuel
    → read_number 0 (reverse (digits fuel n) ++ s) ≡ read_number n s
unfolding digits
read_number-digits zero n s h = absurd (omega arith)
read_number-digits (suc fuel) n s h =
    on_if (λ t. read_number 0 (reverse t ++ s) ≡ read_number n s) (ltb n 10)
      (λ e.
        read_number-digit 0 n s (ground (arith)) ∙ ap (λ (x : ℕ). read_number x s) (omega arith))
      (λ e.
        let high = read_number-digits fuel (n / 10) ((48 + n % 10) ∷ s) (ground (arith)) in
        let low = read_number-digit (n / 10) (n % 10) s (omega arith) in
        let whole : n / 10 * 10 + n % 10 ≡ n = omega arith in
        rw (reverse-cons, append_assoc) (high ∙ low ∙ ap (λ (x : ℕ). read_number x s) whole))

read_number-decimal : (n : ℕ) (s : Text) → read_number 0 (decimal n ++ s) ≡ read_number n s
unfolding decimal
read_number-decimal n s = read_number-digits (suc n) n s (omega arith)

read_number-two_digits : (n : ℕ) (s : Text) → read_number 0 (two_digits n ++ s) ≡ read_number n s
unfolding two_digits
read_number-two_digits n s =
    on_if (λ t. read_number 0 (t ++ s) ≡ read_number n s) (ltb n 10)
      (λ _. read_number-digit 0 0 (decimal n ++ s) (omega arith) ∙ read_number-decimal n s)
      (λ _. read_number-decimal n s)

read_seconds-two_digits :
    (days hours rest : ℕ)
    → read_seconds days hours (read_number 0 (two_digits rest ++ text ":00"))
      ≡ some ((days * 24 + hours) * 60 + rest)
read_seconds-two_digits days hours rest =
    ap (read_seconds days hours)
      (read_number-two_digits rest (text ":00") ∙ read_number-stop rest (text ":00") refl)

read_hours :
    (hours rest : ℕ)
    → read_number 0 (clock_text hours rest) ≡ (hours, text ":" ++ (two_digits rest ++ text ":00"))
unfolding clock_text
read_hours hours rest =
    read_number-two_digits hours (text ":" ++ (two_digits rest ++ text ":00"))
    ∙ read_number-stop hours (text ":" ++ (two_digits rest ++ text ":00")) refl

minutes_of-walltime :
    (days hours rest : ℕ)
    → minutes_of (walltime days hours rest) ≡ some ((days * 24 + hours) * 60 + rest)
unfolding minutes_of walltime
minutes_of-walltime days hours rest =
    on_if (λ t. read_days (read_number 0 t) ≡ some ((days * 24 + hours) * 60 + rest)) (days == 0)
      (λ e.
        let none_left : 0 ≡ days = ground (arith) in
        ap read_days (read_hours hours rest)
        ∙ read_seconds-two_digits 0 hours rest
        ∙ ap (λ (x : ℕ). some ((x * 24 + hours) * 60 + rest)) none_left)
      (λ _.
        ap read_days (
          read_number-decimal days (text "-" ++ clock_text hours rest)
          ∙ read_number-stop days (text "-" ++ clock_text hours rest) refl)
        ∙ ap (read_minutes days) (read_hours hours rest)
        ∙ read_seconds-two_digits days hours rest)

-- The wall time that a number of minutes is printed as, read as `[days-]hours:minutes:00`, stands for
-- just that number.
pub minutes_of-minutes_to_walltime :
    (minutes : ℕ) → minutes_of (minutes_to_walltime minutes) ≡ some minutes
unfolding minutes_to_walltime
minutes_of-minutes_to_walltime minutes =
    minutes_of-walltime (minutes / 60 / 24) (minutes / 60 % 24) (minutes % 60)
    ∙ ap some (omega arith)

-- `[A-Za-z0-9]`
abbrev pub is_ascii_alnum : ℕ → Bool
is_ascii_alnum c = (leb 48 c && leb c 57) || (leb 65 c && leb c 90) || (leb 97 c && leb c 122)

-- Only these, and dashes.
abbrev every : Text → Bool
every [] = true
every (c ∷ s) = (is_ascii_alnum c || (c == 45)) && every s

module _ (isalnum : ℕ → Bool) where
  -- One to 64 characters that a job name may have.
  pub record IsJobName (s : Text) : Type 0 where
    pub filled : 1 ≤ length s
    pub short : length s ≤ 64
    pub allowed : All (λ c. is_allowed isalnum c ≡ true) s

  cleaned-allowed : (s : Text) → All (λ c. is_allowed isalnum c ≡ true) (cleaned isalnum s)
  unfolding cleaned
  cleaned-allowed [] = tt
  cleaned-allowed (c ∷ s) = (
    on_if (λ d. is_allowed isalnum d ≡ true) (is_allowed isalnum c) (λ e. e) (λ _. ground (arith)),
    cleaned-allowed s,
  )

  take-allowed :
      (n : ℕ) (s : Text)
      → All (λ c. is_allowed isalnum c ≡ true) s
      → All (λ c. is_allowed isalnum c ≡ true) (take n s)
  take-allowed zero s h = tt
  take-allowed (suc n) [] h = tt
  take-allowed (suc n) (c ∷ s) (h, hs) = (h, take-allowed n s hs)

  take-length : (n : ℕ) (s : Text) → length (take n s) ≤ n
  take-length zero s = omega arith
  take-length (suc n) [] = omega arith
  take-length (suc n) (c ∷ s) = let rest = take-length n s in omega arith

  plain :
      (s : Text)
      → ((c : ℕ) → is_ascii_alnum c ≡ true → isalnum c ≡ true)
      → every s ≡ true
      → All (λ c. is_allowed isalnum c ≡ true) s
  plain [] ascii h = tt
  plain (c ∷ s) ascii h = (
    elim (Bool-cases (is_ascii_alnum c)) [
      | inl e ↦ let known = ascii c e in ground (arith)
      | inr e ↦ ground (arith)
    ],
    plain s ascii (ground (arith)),
  )

  or_default :
      (s : Text)
      → ((c : ℕ) → is_ascii_alnum c ≡ true → isalnum c ≡ true)
      → length s ≤ 64
      → All (λ c. is_allowed isalnum c ≡ true) s
      → IsJobName (or_else s (text "workspace107-run"))
  or_default [] ascii short h = record {
    filled = omega arith;
    short = omega arith;
    allowed = plain (text "workspace107-run") ascii refl;
  }
  or_default (c ∷ s) ascii short h = record { filled = omega arith; short = short; allowed = h }

  -- If ASCII letters and digits count as alphanumeric, every name is made into 1 to 64 characters, each
  -- alphanumeric, a dash, an underscore or a dot.
  pub sanitize-IsJobName :
      ((c : ℕ) → is_ascii_alnum c ≡ true → isalnum c ≡ true)
      → (name : Text) → IsJobName (sanitize isalnum name)
  unfolding sanitize
  sanitize-IsJobName ascii name =
      or_default (take 64 (cleaned isalnum name)) ascii (take-length 64 (cleaned isalnum name))
        (take-allowed 64 (cleaned isalnum name) (cleaned-allowed name))
