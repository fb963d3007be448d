-- ===== src/Settlement/Memo.antt =====
-- packages/settlement/src/execute.ts: `extractMemo`, which looks at the memo instructions and then at
-- the log.
use Prim.Native.String.{slice, len, find as position}
use text.Mathlib.Text.{starts_with}
use ghost_bazaar.Prelude.{
  ℕ, suc, ◌+◌, ◌-◌, String, ◌===◌, Bool, not, ◌&&◌, ◌||◌, ◌==◌, leb, ltb, List, [], ◌∷◌, Option,
  none, some, any, if◌then◌else◌, ◌≡◌, refl,
}
use ghost_bazaar.Prelude.Json.{as_string}
use ghost_bazaar.Prelude.Text.{codes, is_digit}
use ghost_bazaar.Engine.ControlEnvelope.{nonempty}
use ghost_bazaar.Settlement.Transaction.{
  Chain, Instruction, Transaction, program_of, is_named, is_memo_program, collect_instructions,
}

-- `s.includes(t)`
abbrev pub includes : String → String → Bool
includes s t = leb (position s t) (len s)

-- What `.` does not match.
abbrev pub is_line_end : ℕ → Bool
is_line_end c = c == 10 || c == 13 || c == 0x2028 || c == 0x2029

unfoldable pub leading_digits : List ℕ → ℕ
leading_digits [] = 0
leading_digits (c ∷ cs) = let more = leading_digits cs in if is_digit c then suc more else 0

-- The group of `/^Program log: Memo \(len \d+\): "(.*)"$/`; the prefix up to the digits is 23 bytes long.
unfoldable pub match_memo_log : String → Option String
unfolding leading_digits
match_memo_log log =
    let digits = leading_digits (codes (slice log 23 (len log))) in
    let start = 23 + digits + 4 in
    let text = slice log start (len log - 1) in
    if starts_with log "Program log: Memo (len "
      && ltb 0 digits
      && slice log (23 + digits) start === "): \""
      && ltb start (len log)
      && slice log (len log - 1) (len log) === "\""
      && not (any is_line_end (codes text))
    then some text
    else none

-- The body of the loop over the log; `"Program log: "` is 13 bytes long.
unfoldable pub memo_of_log : String → Option String
unfolding match_memo_log
memo_of_log log = elim (match_memo_log log) [
  | some text ↦ some text
  | none ↦
      if starts_with log "Program log: " && includes log "Ghost Bazaar:"
      then some (slice log 13 (len log))
      else none
]

unfoldable pub first_log_memo : List String → Option String
unfolding memo_of_log
first_log_memo [] = none
first_log_memo (log ∷ logs) = elim (memo_of_log log) [
  | some m ↦ some m
  | none ↦ first_log_memo logs
]

module _ (c : Chain) where
  -- `Buffer.from(bs58.decode(data)).toString("utf-8")`, or the data as they are if that throws.
  abbrev pub decoded_memo : String → String
  decoded_memo text = elim (c.base58_decode text) [ some bytes ↦ c.utf8 bytes | none ↦ text ]

  -- The body of the loop over the instructions.
  unfoldable pub memo_of_instruction : Instruction → Option String
  memo_of_instruction ix =
      if is_memo_program (program_of ix) || is_named ix.program "spl-memo"
      then elim (nonempty (as_string ix.parsed)) [
        | some m ↦ some m
        | none ↦ elim (nonempty ix.raw_data) [ some text ↦ some (decoded_memo text) | none ↦ none ]
      ]
      else none

  unfoldable pub first_memo : List Instruction → Option String
  unfolding memo_of_instruction
  first_memo [] = none
  first_memo (ix ∷ ixs) = elim (memo_of_instruction ix) [ some m ↦ some m | none ↦ first_memo ixs ]

  unfoldable pub extract_memo : Transaction → Option String
  unfolding first_memo first_log_memo
  extract_memo tx = elim (first_memo (collect_instructions tx)) [
    | some m ↦ some m
    | none ↦ first_log_memo tx.log_messages
  ]

test_memo : memo_of_log "Program log: Memo (len 7): \"quote-1\"" ≡ some "quote-1"
unfolding memo_of_log ◌===◌ any
test_memo = refl
