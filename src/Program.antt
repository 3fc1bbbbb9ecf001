-- ===== src/Program.antt =====
-- src/main.cpp: how the server is asked to stop. A signal, the words of standard input and its end
-- come in any order; the main thread polls `shutdownRequested` and then stops the server.
use kv_database.Prelude.{
  ◌≡◌, refl, ◌⊎◌, ◌↔◌, inl, inr, Bool, true, false, List, [], ◌∷◌, arith, Bytes, codes, ◌===◌,
  ===_iff, if◌then◌else◌, Bool-cases,
}
use kv_database.EventLoop.{EventLoop}
use kv_database.Server.{Server}
use kv_database.Server.Loop.{stop}

pub data Input : Type 0 where
  signal end_of_input : Input
  word : Bytes → Input

abbrev pub stop_word : Bytes
stop_word = codes "stop"

pub record Control : Type 0 where
  pub shutdown_requested : Bool
  -- whether the thread of standard input still reads
  pub reading : Bool

-- `handleSignal`, and a round of the thread of standard input.
unfoldable pub take_input : Input → Control → Control
take_input signal c = record c { shutdown_requested = true }
take_input end_of_input c = record c { reading = false }
take_input (word cmd) c =
    if c.reading
    then if cmd === stop_word then record { shutdown_requested = true; reading = false } else c
    else c

unfoldable pub take_inputs : List Input → Control → Control
unfolding take_input
take_inputs [] c = c
take_inputs (x ∷ xs) c = take_inputs xs (take_input x c)

abbrev pub at_start : Control
at_start = record { shutdown_requested = false; reading = true }

module _ {L : Type 0} ⦃loop : EventLoop L⦄ where
  -- The rest of `main`: the server is stopped once it is asked to, and runs on until then.
  unfoldable pub main : List Input → Server L → Server L
  unfolding take_inputs
  main inputs s = if (take_inputs inputs at_start).shutdown_requested then stop s else s

-- A signal, or the word while standard input is read.
abbrev pub AsksToStop : Bool → List Input → Type 0
AsksToStop reading [] = ⊥
AsksToStop reading (signal ∷ xs) = Unit
AsksToStop reading (end_of_input ∷ xs) = AsksToStop false xs
AsksToStop reading (word cmd ∷ xs) = ((reading ≡ true) × (cmd ≡ stop_word)) ⊎ AsksToStop reading xs

-- Once it is asked to stop, the program stays so.
take_inputs-asked :
    (xs : List Input) (c : Control)
    → c.shutdown_requested ≡ true
    → (take_inputs xs c).shutdown_requested ≡ true
unfolding take_inputs take_input
take_inputs-asked [] c asked = asked
take_inputs-asked (signal ∷ xs) c asked = take_inputs-asked xs _ refl
take_inputs-asked (end_of_input ∷ xs) c asked = take_inputs-asked xs _ asked
take_inputs-asked (word cmd ∷ xs) c asked = take_inputs-asked xs _ (ground (arith, asked))

take_inputs-asks :
    (xs : List Input) (reading : Bool)
    → ((take_inputs xs
          (record { shutdown_requested = false; reading = reading })).shutdown_requested
        ≡ true)
      ↔ AsksToStop reading xs
unfolding take_inputs take_input
take_inputs-asks [] reading = (λ e. absurd (cc e), λ e. absurd e)
take_inputs-asks (signal ∷ xs) reading = (λ e. tt, λ u. take_inputs-asked xs _ refl)
take_inputs-asks (end_of_input ∷ xs) reading = take_inputs-asks xs false
take_inputs-asks (word cmd ∷ xs) false =
    let (to, from) = take_inputs-asks xs false in
    (λ e. inr (to e), λ h. elim h [ inl (e, same) ↦ absurd (cc e) | inr later ↦ from later ])
take_inputs-asks (word cmd ∷ xs) true = elim (Bool-cases (cmd === stop_word)) [
  | inl e ↦
      rw (e, take_inputs)
        (λ asked. inl (refl, (===_iff cmd stop_word).0 e), λ h. take_inputs-asked xs _ refl)
  | inr e ↦
      let (to, from) = take_inputs-asks xs true in
      rw (e, take_inputs)
        (
          λ asked. inr (to asked),
          λ h. elim h [
            | inl (reads, same) ↦ absurd (cc (e, (===_iff cmd stop_word).1 same))
            | inr later ↦ from later
          ],
        )
]

module _ {L : Type 0} ⦃loop : EventLoop L⦄ where
  -- From a running server main stops it if and only if a signal came, or standard input had the
  -- word stop before its end.
  pub main-stops :
      (inputs : List Input) (s : Server L)
      → s.running ≡ true
      → ((main inputs s).running ≡ false) ↔ AsksToStop true inputs
  unfolding main stop
  main-stops inputs s running =
      let (to, from) = take_inputs-asks inputs true in
      elim (Bool-cases (take_inputs inputs at_start).shutdown_requested) [
        | inl e ↦ rw e (λ stopped. to e, λ h. refl)
        | inr e ↦ rw e (λ stopped. absurd (cc (stopped, running)), λ h. absurd (cc (e, from h)))
      ]
