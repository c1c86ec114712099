-- ===== src/Client/Security/Dialogues.antt =====
-- When the dialogues of src/client/security.rs end, and with what.
use harmonic.Prelude.{
  ℕ, zero, suc, ◌+◌, ◌≤◌, ◌<◌, ◌==◌, ==_iff, length, Option, none, some, [], ◌∷◌, ◌≡◌, ◌⊎◌, false,
  ltb, ltb→lt, ltb-false_le, refl, sym, ap, ◌∙◌, arith, Bool-cases, Option-cases, inl, inr,
}
use harmonic.Text.{Bytes}
use harmonic.Text.Trim.{trim}
use harmonic.Error.{Outcome, ok, unfinished}
use harmonic.Net.{read_digits, show}
use harmonic.Net.Digits.{read_digits-le, width, width_pos, show-first, read_digits-show}
use harmonic.Client.Security.{
  Stdin, Read, ask_until, otp_in, get_user_input_for_otp, whole_number, all_digits, parse_u16,
  port_in, default_or_u16, get_user_input_for_bootstrap_server_port,
}

-- What a line is worth to a dialogue.
abbrev pub answer_at {ℓ} : {A : Type ℓ} → (Bytes → Option A) → Option Bytes → Option A
answer_at accept none = none
answer_at accept (some line) = accept line

-- A dialogue from the n-th line on that ends: with the answer of the first line that has one.
pub record Answered {ℓ} {A : Type ℓ} (accept : Bytes → Option A) (stdin : Stdin) (n : ℕ)
    (outcome : Outcome (Read A)) : Type ℓ where
  pub answer : A
  pub line : ℕ
  pub returns : outcome ≡ ok (answer, suc line)
  pub from : n ≤ line
  pub accepted : answer_at accept (stdin line) ≡ some answer
  pub first : (i : ℕ) → n ≤ i → i < line → answer_at accept (stdin i) ≡ none

module _ {ℓ} {A : Type ℓ} (accept : Bytes → Option A) (stdin : Stdin) where
  pub ask_until-hit :
      (fuel n : ℕ) (a : A)
      → answer_at accept (stdin n) ≡ some a
      → ask_until accept (suc fuel) stdin n ≡ ok (a, suc n)
  unfolding ask_until
  ask_until-hit fuel n a e = elim (Option-cases (stdin n)) [
    | inl failed ↦ let e' = rw failed at e in cc
    | inr (line, read) ↦ let e' = rw read at e in rw (read, ask_until) (rw e' refl)
  ]

  ask_until-miss :
      (fuel n : ℕ)
      → answer_at accept (stdin n) ≡ none
      → ask_until accept (suc fuel) stdin n ≡ ask_until accept fuel stdin (suc n)
  unfolding ask_until
  ask_until-miss fuel n e = elim (Option-cases (stdin n)) [
    | inl failed ↦ rw (failed, ask_until) refl
    | inr (line, read) ↦ let e' = rw read at e in rw (read, ask_until) (rw e' refl)
  ]

  answer_here :
      (fuel n : ℕ) (a : A)
      → answer_at accept (stdin n) ≡ some a
      → Answered accept stdin n (ask_until accept (suc fuel) stdin n)
  answer_here fuel n a here = record {
    answer = a;
    line = n;
    returns = ask_until-hit fuel n a here;
    from = omega arith;
    accepted = here;
    first = λ i low high. absurd (omega arith);
  }

  answer_later :
      (fuel n : ℕ)
      → answer_at accept (stdin n) ≡ none
      → Answered accept stdin (suc n) (ask_until accept fuel stdin (suc n))
      → Answered accept stdin n (ask_until accept (suc fuel) stdin n)
  answer_later fuel n not_here later = record {
    answer = later.answer;
    line = later.line;
    returns = ask_until-miss fuel n not_here ∙ later.returns;
    from = omega (arith, later.from);
    accepted = later.accepted;
    first = λ i low high. elim (Bool-cases (i == n)) [
      | inl same ↦ rw ((==_iff i n).0 same) not_here
      | inr other ↦ later.first i (ground arith) high
    ];
  }

  pub ask_until-Answered :
      (fuel k n : ℕ) (a : A)
      → answer_at accept (stdin (k + n)) ≡ some a
      → k < fuel
      → Answered accept stdin n (ask_until accept fuel stdin n)
  ask_until-Answered zero k n a e h = absurd (omega arith)
  ask_until-Answered (suc fuel) zero n a e h =
      let zero_add : 0 + n ≡ n = omega arith in
      answer_here fuel n a (ap (λ i. answer_at accept (stdin i)) (sym zero_add) ∙ e)
  ask_until-Answered (suc fuel) (suc k) n a e h = elim (Option-cases (answer_at accept (stdin n))) [
    | inr (b, here) ↦ answer_here fuel n b here
    | inl not_here ↦
        let shift : k + suc n ≡ suc k + n = omega arith in
        answer_later fuel n not_here (
          ask_until-Answered fuel k (suc n) a (ap (λ i. answer_at accept (stdin i)) shift ∙ e)
            (omega arith))
  ]

  -- Where no line is accepted, the dialogue never ends.
  pub ask_until-unfinished :
      (fuel n : ℕ)
      → ((i : ℕ) → n ≤ i → answer_at accept (stdin i) ≡ none)
      → ask_until accept fuel stdin n ≡ unfinished
  unfolding ask_until
  ask_until-unfinished zero n none_accepted = refl
  ask_until-unfinished (suc fuel) n none_accepted =
      ask_until-miss fuel n (none_accepted n (omega arith))
      ∙ ask_until-unfinished fuel (suc n) (λ i h. none_accepted i (omega arith))

otp_in-length : (line otp : Bytes) → otp_in line ≡ some otp → (trim line ≡ otp) × (length otp ≡ 64)
unfolding otp_in
otp_in-length line otp e = elim (Bool-cases (length (trim line) == 64)) [
  | inl full ↦
      let e' = rw full at e in
      let same : trim line ≡ otp = cc in
      (same, ap length (sym same) ∙ (==_iff (length (trim line)) 64).0 full)
  | inr other ↦ let e' = rw other at e in cc
]

answer_at-length :
    (line : Option Bytes) (otp : Bytes) → answer_at otp_in line ≡ some otp → length otp ≡ 64
answer_at-length none otp e = cc
answer_at-length (some line) otp e = (otp_in-length line otp e).1

pub otp_in-full : (line : Bytes) → length (trim line) ≡ 64 → otp_in line ≡ some (trim line)
unfolding otp_in
otp_in-full line full = rw ((==_iff (length (trim line)) 64).1 full) refl

-- If some line from the n-th on has 64 bytes between its white space, and the fuel reaches it, the
-- dialogue for the password ends: with the first such line, of which it returns these 64 bytes.
-- Lines that cannot be read are passed over.
pub get_user_input_for_otp-Answered :
    (fuel k n : ℕ) (stdin : Stdin) (line : Bytes)
    → stdin (k + n) ≡ some line
    → length (trim line) ≡ 64
    → k < fuel
    → (answered : Answered otp_in stdin n (get_user_input_for_otp fuel stdin n)) × (length
          answered.answer
        ≡ 64)
unfolding get_user_input_for_otp
get_user_input_for_otp-Answered fuel k n stdin line e full h =
    let answered =
      ask_until-Answered otp_in stdin fuel k n (trim line)
        (ap (answer_at otp_in) e ∙ otp_in-full line full) h in
    (answered, answer_at-length (stdin answered.line) answered.answer answered.accepted)

-- At the end of its input, where each call reads an empty line, the dialogue for the password
-- asks for ever, whatever the fuel; the one for the port returns the default at once.
pub end_of_input :
    (fuel n : ℕ) (stdin : Stdin)
    → ((i : ℕ) → n ≤ i → stdin i ≡ some [])
    → (get_user_input_for_otp fuel stdin n ≡ unfinished)
      × (get_user_input_for_bootstrap_server_port (suc fuel) stdin n ≡ ok (42070, suc n))
unfolding get_user_input_for_otp get_user_input_for_bootstrap_server_port otp_in port_in trim
end_of_input fuel n stdin ended = (
  ask_until-unfinished otp_in stdin fuel n (λ i low. rw (ended i low) refl),
  ask_until-hit port_in stdin fuel n 42070 (rw (ended n (omega arith)) refl),
)

whole_number-le :
    (value count : ℕ) (rest : Bytes) (port limit : ℕ)
    → value ≤ limit
    → whole_number value count rest ≡ some port
    → port ≤ limit
whole_number-le value count [] port limit h e = ground arith
whole_number-le value count (b ∷ rest) port limit h e = cc

all_digits-le : (text : Bytes) (port : ℕ) → all_digits text ≡ some port → port ≤ 65535
all_digits-le text port e = elim (Option-cases (read_digits 65535 none 0 0 text)) [
  | inl failed ↦ let e' = rw (failed, all_digits) at e in cc
  | inr (number, read) ↦
      let e' = rw (read, all_digits) at e in
      whole_number-le number.value number.count number.rest port 65535
        (read_digits-le 65535 none 0 0 text number (omega arith) read) e'
]

parse_u16-le : (text : Bytes) (port : ℕ) → parse_u16 text ≡ some port → port ≤ 65535
unfolding parse_u16
parse_u16-le [] port e = cc
parse_u16-le (b ∷ text) port e = elim (Bool-cases (b == b'+')) [
  | inl plus ↦ let e' = rw plus at e in all_digits-le text port e'
  | inr other ↦ let e' = rw other at e in all_digits-le (b ∷ text) port e'
]

default_or_u16-le : (text : Bytes) (port : ℕ) → default_or_u16 text ≡ some port → port ≤ 65535
default_or_u16-le [] port e = ground arith
default_or_u16-le (b ∷ text) port e = parse_u16-le (b ∷ text) port e

answer_at-le : (line : Option Bytes) (port : ℕ) → answer_at port_in line ≡ some port → port ≤ 65535
unfolding port_in
answer_at-le none port e = cc
answer_at-le (some line) port e = default_or_u16-le (trim line) port e

-- What a line stands for: nothing for the default, and the decimal text of a port for the port.
pub data IsPort : Bytes → ℕ → Type 0 where
  blank : IsPort [] 42070
  written : (port : ℕ) → port ≤ 65535 → IsPort (show port) port

all_digits-show : (port : ℕ) → port ≤ 65535 → all_digits (show port) ≡ some port
all_digits-show port h =
    let counted : (width (suc port) port == 0) ≡ false =
      ground (arith, width_pos (suc port) port (omega arith)) in
    rw (read_digits-show port 65535 h, all_digits) (rw counted refl)

parse_u16-show : (port : ℕ) → port ≤ 65535 → default_or_u16 (show port) ≡ some port
unfolding parse_u16
parse_u16-show port h =
    let (d, rest, e, small) = show-first port in
    let no_plus : ((b'0' + d) == b'+') ≡ false = ground arith in
    let whole : all_digits ((b'0' + d) ∷ rest) ≡ some port =
      ap all_digits (sym e) ∙ all_digits-show port h in
    rw e (rw no_plus whole)

default_or_u16-IsPort :
    (text : Bytes) (port : ℕ) → IsPort text port → default_or_u16 text ≡ some port
default_or_u16-IsPort _ _ blank = refl
default_or_u16-IsPort _ _ (written port h) = parse_u16-show port h

-- The dialogue ended before a line, or with what that line stands for.
ended_by :
    (k n : ℕ) (stdin : Stdin) (line : Bytes) (port : ℕ) (outcome : Outcome (Read ℕ))
    (answered : Answered port_in stdin n outcome)
    → stdin (k + n) ≡ some line
    → port_in line ≡ some port
    → (answered.line < k + n) ⊎ (answered.answer ≡ port)
ended_by k n stdin line port outcome answered e accepted =
    elim (Bool-cases (ltb answered.line (k + n))) [
      | inl before ↦ inl (ltb→lt answered.line (k + n) before)
      | inr not_before ↦ elim (Bool-cases (answered.line == k + n)) [
        | inl here ↦
            let same = (==_iff answered.line (k + n)).0 here in
            let gives : some answered.answer ≡ some port =
              sym answered.accepted
              ∙ ap (λ i. answer_at port_in (stdin i)) same
              ∙ ap (answer_at port_in) e
              ∙ accepted in
            inr (cc gives)
        | inr behind ↦
            let low : n ≤ k + n = omega arith in
            let high : k + n < answered.line = ground (arith, ltb-false_le answered.line (k + n)) in
            let missed = answered.first (k + n) low high in
            cc (missed, ap (answer_at port_in) e, accepted)
      ]
    ]

-- If some line from the n-th on has nothing between its white space, or the decimal text of a number of
-- 16 bits, and the fuel reaches it, then the dialogue for the port ends, with a port of 16 bits: at an
-- earlier line that is accepted, the first, or at this one with 42070 for nothing and else with the
-- number. Lines that cannot be read are passed over.
pub get_user_input_for_bootstrap_server_port-Answered :
    (fuel k n : ℕ) (stdin : Stdin) (line : Bytes) (port : ℕ)
    → stdin (k + n) ≡ some line
    → IsPort (trim line) port
    → k < fuel
    → (answered : Answered port_in stdin n (get_user_input_for_bootstrap_server_port fuel stdin n))
      × (answered.answer ≤ 65535)
      × ((answered.line < k + n) ⊎ (answered.answer ≡ port))
unfolding get_user_input_for_bootstrap_server_port port_in
get_user_input_for_bootstrap_server_port-Answered fuel k n stdin line port e is_port h =
    let accepted : port_in line ≡ some port = default_or_u16-IsPort (trim line) port is_port in
    let answered =
      ask_until-Answered port_in stdin fuel k n port (ap (answer_at port_in) e ∙ accepted) h in
    (
      answered,
      answer_at-le (stdin answered.line) answered.answer answered.accepted,
      ended_by k n stdin line port _ answered e accepted,
    )
