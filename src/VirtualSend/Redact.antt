-- ===== src/VirtualSend/Redact.antt =====
-- tools/zkmsg/core/src/virtual_send.rs: what `redact_felts` masks, and what it does not.
use stwo_starknet_verifier.Common.{
  sym, ◌<◌, suc, leb, ◌≤◌, ◌≡◌, ◌≢◌, refl, ap, ◌∙◌, true, false, [], ◌∷◌, ◌++◌, length, arith,
  le→leb,
}
use stwo_starknet_verifier.Common.Texts.{is_hexdigit, take_while, starts_with}
use stwo_starknet_verifier.Felts.{Text, bytes}
use stwo_starknet_verifier.VirtualSend.{mask, masked, redact_from, redact_felts}

-- Every byte is a hex digit.
abbrev pub AllHex : Text → Type 0
AllHex [] = Unit
AllHex (c ∷ cs) = (is_hexdigit c ≡ true) × AllHex cs

-- No byte is "0".
abbrev pub NoZero : Text → Type 0
NoZero [] = Unit
NoZero (c ∷ cs) = (c ≢ b'0') × NoZero cs

-- The text does not go on with a hex digit.
abbrev pub Stops : Text → Type 0
Stops [] = Unit
Stops (c ∷ cs) = is_hexdigit c ≡ false

take_while-hex :
    (ds rest : Text) → AllHex ds → Stops rest → take_while is_hexdigit (ds ++ rest) ≡ ds
take_while-hex [] [] h s = refl
take_while-hex [] (c ∷ cs) h s = rw s refl
take_while-hex (d ∷ ds) rest h s = rw (h.0) (ap (◌∷◌ d) (take_while-hex ds rest h.1 s))

redact_from-done : (ds rest : Text) → redact_from (length ds) (ds ++ rest) ≡ redact_from 0 rest
unfolding redact_from
redact_from-done [] rest = refl
redact_from-done (d ∷ ds) rest = redact_from-done ds rest

redact_from-plain :
    (pre rest : Text) → NoZero pre → redact_from 0 (pre ++ rest) ≡ pre ++ redact_from 0 rest
unfolding redact_from
redact_from-plain [] rest h = refl
redact_from-plain (c ∷ cs) rest h =
    let no : starts_with (bytes "0x") (c ∷ (cs ++ rest)) ≡ false = ground arith in
    rw (no, redact_from) (ap (◌∷◌ c) (redact_from-plain cs rest h.1))

redact_from-run :
    (ds rest : Text)
    → AllHex ds
    → Stops rest
    → redact_from 0 (b'0' ∷ b'x' ∷ (ds ++ rest)) ≡ masked ds ++ redact_from 0 rest
unfolding redact_from
redact_from-run ds rest h s =
    rw (take_while-hex ds rest h s) (ap (λ t. masked ds ++ t) (redact_from-done ds rest))

-- A run of at least 16 hex digits behind "0x" is masked, where no "0" stands in the line before
-- it: the line's start stays, and what stands behind the run is treated in the same way.
pub redact_felts-masks :
    (pre ds rest : Text)
    → NoZero pre
    → AllHex ds
    → Stops rest
    → 16 ≤ length ds
    → redact_felts (pre ++ (bytes "0x" ++ (ds ++ rest))) ≡ pre ++ (mask ++ redact_felts rest)
unfolding redact_felts
redact_felts-masks pre ds rest plain hex stops long =
    redact_from-plain pre (bytes "0x" ++ (ds ++ rest)) plain
    ∙ ap (λ t. pre ++ t) (redact_from-run ds rest hex stops ∙ rw (le→leb 16 (length ds) long) refl)

-- The text does not start with "x".
abbrev pub NotX : Text → Type 0
NotX [] = Unit
NotX (c ∷ cs) = c ≢ b'x'

redact_from-hex_before :
    (ds rest : Text) → AllHex ds → NotX rest → redact_from 0 (ds ++ rest) ≡ ds ++ redact_from 0 rest
unfolding redact_from
redact_from-hex_before [] rest h other = refl
redact_from-hex_before (c ∷ []) [] h other =
    let no : starts_with (bytes "0x") (c ∷ []) ≡ false = ground arith in rw (no, redact_from) refl
redact_from-hex_before (c ∷ []) (r ∷ rest) h other =
    let no : starts_with (bytes "0x") (c ∷ r ∷ rest) ≡ false = ground arith in
    rw (no, redact_from) refl
redact_from-hex_before (c ∷ d ∷ ds) rest h other =
    let no : starts_with (bytes "0x") (c ∷ d ∷ (ds ++ rest)) ≡ false = ground arith in
    rw (no, redact_from) (ap (◌∷◌ c) (redact_from-hex_before (d ∷ ds) rest h.1 other))

AllHex-append_zero : (ds : Text) → AllHex ds → AllHex (ds ++ bytes "0")
AllHex-append_zero [] h = (refl, tt)
AllHex-append_zero (d ∷ ds) h = (h.0, AllHex-append_zero ds h.1)

length-append_zero : (ds : Text) → length (ds ++ bytes "0") ≡ suc (length ds)
length-append_zero [] = refl
length-append_zero (d ∷ ds) = ap suc (length-append_zero ds)

append_zero :
    (ds rest : Text) → ds ++ (bytes "0x" ++ rest) ≡ (ds ++ bytes "0") ++ (bytes "x" ++ rest)
append_zero [] rest = refl
append_zero (d ∷ ds) rest = ap (◌∷◌ d) (append_zero ds rest)

masked-short :
    (ds : Text) → length ds < 15 → masked (ds ++ bytes "0") ≡ bytes "0x" ++ (ds ++ bytes "0")
masked-short ds little =
    let few : leb 16 (length (ds ++ bytes "0")) ≡ false =
      rw (length-append_zero ds) (ground arith) in
    rw few refl

-- A run of hex digits behind "0x" is not masked, however long, where the "0" of this "0x" is the
-- last digit of another run, of fewer than 16 digits: where no "0" stands in the line before that
-- run and no "x" directly behind the long one, both runs stay as they are.
pub redact_felts-leaks :
    (pre short ds rest : Text)
    → NoZero pre
    → AllHex short
    → length short < 15
    → AllHex ds
    → NotX rest
    → redact_felts (pre ++ (bytes "0x" ++ (short ++ (bytes "0x" ++ (ds ++ rest)))))
      ≡ pre ++ (bytes "0x" ++ (short ++ (bytes "0x" ++ (ds ++ redact_felts rest))))
unfolding redact_felts redact_from
redact_felts-leaks pre short ds rest plain few little hex other =
    let line = bytes "x" ++ (ds ++ rest) in
    let behind : redact_from 0 line ≡ bytes "x" ++ (ds ++ redact_from 0 rest) =
      ap (λ t. b'x' ∷ t) (redact_from-hex_before ds rest hex other) in
    redact_from-plain pre (bytes "0x" ++ (short ++ (bytes "0x" ++ (ds ++ rest)))) plain
    ∙ ap (λ t. pre ++ t)
        (ap (λ t. redact_from 0 (bytes "0x" ++ t)) (append_zero short (ds ++ rest))
          ∙ (redact_from-run (short ++ bytes "0") line (AllHex-append_zero short few) refl
              ∙ (ap (λ t. t ++ redact_from 0 line) (masked-short short little)
                  ∙ (ap (λ t. bytes "0x" ++ ((short ++ bytes "0") ++ t)) behind
                      ∙ ap (λ t. bytes "0x" ++ t)
                          (sym (append_zero short (ds ++ redact_from 0 rest)))))))
