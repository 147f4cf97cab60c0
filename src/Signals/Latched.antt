-- ===== src/Signals/Latched.antt =====
-- The signals that reach an application once its constructor has set them up.
use werk.Prelude.{
  if◌then◌else◌, not, ap, sym, ℕ, ◌<◌, ◌≡◌, ◌≢◌, refl, ◌∙◌, Bool, true, false, ◌||◌, Option, none,
  some, List, [], ◌∷◌, arith, length, get_or, set, length-set, get_or-set_self, get_or-set_ne, sym,
}
use werk.Actions.{State, execute}
use werk.Signals.{
  Signal, sighup, sigint, Handlers, setup_signal_handler, install, action_of, run_action,
  handle_signal, deliver, set_up_signals,
}

-- SIGINT for true, and SIGHUP.
abbrev pub signal_of : Bool → Signal
signal_of true = sigint
signal_of false = sighup

abbrev pub deliver_next : (State → Option State) → Option State → Option State
deliver_next rest none = none
deliver_next rest (some s) = rest s

abbrev pub has : Bool → List Bool → Bool
has b [] = false
has b (x ∷ xs) = (if b then x else not x) || has b xs

module _ (app : ℕ → State → State) where
  -- Signals as they arrive; `none` if one is left to the system.
  abbrev pub deliver_all : List Bool → Handlers → State → Option State
  deliver_all [] h s = some s
  deliver_all (x ∷ xs) h s = deliver_next (deliver_all xs h) (deliver app (signal_of x) h s)

  abbrev latched : ℕ → State → State
  latched n s = record s { latches = set s.latches n true }

  deliver-latched :
      (x : Bool) (r q : ℕ) (h : Handlers) (s : State)
      → deliver app (signal_of x) (set_up_signals true true r q h) s
        ≡ some (latched (if x then q else r) s)
  unfolding deliver handle_signal run_action action_of set_up_signals setup_signal_handler install
      execute
  deliver-latched true r q h s = refl
  deliver-latched false r q h s = refl

-- The latches of the reload and of quitting, by the signals that have arrived, and all else as it
-- was.
pub record IsLatched (r q : ℕ) (xs : List Bool) (s s' : State) : Type 0 where
  pub reloads : get_or s'.latches r false ≡ get_or s.latches r false || has false xs
  pub quits : get_or s'.latches q false ≡ get_or s.latches q false || has true xs
  pub others : (j : ℕ) → j ≢ r → j ≢ q → get_or s'.latches j false ≡ get_or s.latches j false
  pub counters_kept : s'.counters ≡ s.counters
  pub counts_kept : s'.counts ≡ s.counts
  pub queue_kept : s'.queue ≡ s.queue

or-false : (b : Bool) → b ≡ b || false
or-false b = ground arith

set-or : (b c d e : Bool) → b ≡ true → c ≡ b || d → c ≡ e || (true || d)
set-or b c d e f g = ground arith

IsLatched-none : (r q : ℕ) (s : State) → IsLatched r q [] s s
IsLatched-none r q s = record {
  reloads = or-false _;
  quits = or-false _;
  others = λ j e f. refl;
  counters_kept = refl;
  counts_kept = refl;
  queue_kept = refl;
}

IsLatched-quit :
    (r q : ℕ) (xs : List Bool) (s s' : State)
    → q < length s.latches
    → r ≢ q
    → IsLatched r q xs (record s { latches = set s.latches q true }) s'
    → IsLatched r q (true ∷ xs) s s'
IsLatched-quit r q xs s s' h ne l = record {
  reloads =
      l.reloads
      ∙ ap (λ b. b || has false xs) (get_or-set_ne s.latches q r true false (λ e. ne (sym e)));
  quits =
      set-or _ _ (has true xs) (get_or s.latches q false) (get_or-set_self s.latches q true false h)
        l.quits;
  others = λ j e f. l.others j e f ∙ get_or-set_ne s.latches q j true false (λ g. f (sym g));
  counters_kept = l.counters_kept;
  counts_kept = l.counts_kept;
  queue_kept = l.queue_kept;
}

IsLatched-reload :
    (r q : ℕ) (xs : List Bool) (s s' : State)
    → r < length s.latches
    → r ≢ q
    → IsLatched r q xs (record s { latches = set s.latches r true }) s'
    → IsLatched r q (false ∷ xs) s s'
IsLatched-reload r q xs s s' h ne l = record {
  reloads =
      set-or _ _ (has false xs) (get_or s.latches r false)
        (get_or-set_self s.latches r true false h) l.reloads;
  quits = l.quits ∙ ap (λ b. b || has true xs) (get_or-set_ne s.latches r q true false ne);
  others = λ j e f. l.others j e f ∙ get_or-set_ne s.latches r j true false (λ g. e (sym g));
  counters_kept = l.counters_kept;
  counts_kept = l.counts_kept;
  queue_kept = l.queue_kept;
}

module _ (app : ℕ → State → State) where
  -- Once the constructor has set up its two signals, whatever was set up before, and the system has
  -- accepted both: any number of SIGHUPs and SIGINTs, in any order, are all handled; the latch of the
  -- reload is set if it was before or there is a SIGHUP among them, the one of quitting if it was
  -- before or there is a SIGINT, and nothing else has changed.
  pub deliver_all-IsLatched :
      (reload_latch quit_latch : ℕ) (xs : List Bool) (h : Handlers) (s : State)
      → reload_latch ≢ quit_latch
      → reload_latch < length s.latches
      → quit_latch < length s.latches
      → (s' : State) × (deliver_all app xs (set_up_signals true true reload_latch quit_latch h) s
          ≡ some s')
        × IsLatched reload_latch quit_latch xs s s'
  deliver_all-IsLatched r q [] h s ne hr hq = (s, refl, IsLatched-none r q s)
  deliver_all-IsLatched r q (true ∷ xs) h s ne hr hq =
      let l = length-set s.latches q true in
      let (s', runs, is) =
        deliver_all-IsLatched r q xs h (latched app q s) ne (omega arith) (omega arith) in
      (
        s',
        ap (deliver_next (deliver_all app xs (set_up_signals true true r q h)))
              (deliver-latched app true r q h s)
            ∙ runs,
        IsLatched-quit r q xs s s' hq ne is,
      )
  deliver_all-IsLatched r q (false ∷ xs) h s ne hr hq =
      let l = length-set s.latches r true in
      let (s', runs, is) =
        deliver_all-IsLatched r q xs h (latched app r s) ne (omega arith) (omega arith) in
      (
        s',
        ap (deliver_next (deliver_all app xs (set_up_signals true true r q h)))
              (deliver-latched app false r q h s)
            ∙ runs,
        IsLatched-reload r q xs s s' hr ne is,
      )
