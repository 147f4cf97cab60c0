-- ===== src/Context/Rounds.antt =====
-- The rounds of the main loop, up to the one that quits.
use werk.Prelude.{
  ℕ, ◌≡◌, refl, sym, ap, ◌∙◌, Bool, true, false, ◌||◌, Option, none, some, List, [], ◌∷◌, ◌++◌,
  if◌then◌else◌, All,
}
use werk.Prelude.Int.{ℤ}
use werk.Prelude.Words.{add_u64}
use mathlib.Core.List.{append-nil, append_assoc}
use werk.Commands.{LogLevel}
use werk.Context.Loop.{
  Round, Event, App, Thresholds, emit, level_of, log_update, exit_of, round_step, main_loop,
}

-- What a round shows, with its number.
abbrev level_events : Option LogLevel → ℤ → List Event
level_events none time = []
level_events (some level) time = Event.long_update level time ∷ []

abbrev pub round_events : Thresholds → ℕ → List Round → List Event
round_events t n [] = []
round_events t n (r ∷ rs) =
    Event.main_action (add_u64 n 1)
    ∷ (level_events (level_of t r.update_time) r.update_time ++ round_events t (add_u64 n 1) rs)

abbrev pub last_exit : List Round → ℤ → ℤ
last_exit [] code = code
last_exit (r ∷ rs) code = last_exit rs (exit_of r.sets_exit code)

abbrev pub count_up : List Round → ℕ → ℕ
count_up [] n = n
count_up (r ∷ rs) n = count_up rs (add_u64 n 1)

-- The state behind rounds of which the last one quits.
abbrev pub quitted : List Round → App → App
quitted rs s = record s {
  quitting = true;
  update_id = count_up rs s.update_id;
  exit_code = last_exit rs s.exit_code;
  trace = s.trace ++ round_events s.thresholds s.update_id rs;
}

log_update-trace :
    (o : Option LogLevel) (time : ℤ) (s : App)
    → log_update o time s ≡ record s { trace = s.trace ++ level_events o time }
unfolding log_update emit
log_update-trace none time s = ap (λ l. record s { trace = l }) (sym (append-nil s.trace))
log_update-trace (some l) time s = refl

-- The state behind one round.
abbrev rounded : Round → App → App
rounded r s = record s {
  quitting = s.quitting || r.quits;
  update_id = add_u64 s.update_id 1;
  exit_code = exit_of r.sets_exit s.exit_code;
  trace =
      s.trace
      ++ (Event.main_action (add_u64 s.update_id 1)
          ∷ level_events (level_of s.thresholds r.update_time) r.update_time);
}

round_step-rounded : (r : Round) (s : App) → round_step r s ≡ rounded r s
unfolding round_step emit
round_step-rounded r s =
    let m = Event.main_action (add_u64 s.update_id 1) in
    let levels = level_events (level_of s.thresholds r.update_time) r.update_time in
    log_update-trace (level_of s.thresholds r.update_time) r.update_time (
      emit m (record s {
        update_id = add_u64 s.update_id 1;
        quitting = s.quitting || r.quits;
        exit_code = exit_of r.sets_exit s.exit_code;
      }))
    ∙ ap (λ l. record (rounded r s) { trace = l }) (append_assoc s.trace (m ∷ []) levels)

main_loop-quitting : (rs : List Round) (s : App) → s.quitting ≡ true → main_loop rs s ≡ some s
unfolding main_loop
main_loop-quitting [] s e = ap (λ b. if b then some s else none) e
main_loop-quitting (r ∷ rs) s e = ap (λ b. if b then some s else main_loop rs (round_step r s)) e

main_loop-next :
    (r : Round) (rs : List Round) (s : App)
    → s.quitting ≡ false
    → main_loop (r ∷ rs) s ≡ main_loop rs (rounded r s)
unfolding main_loop
main_loop-next r rs s e =
    ap (λ b. if b then some s else main_loop rs (round_step r s)) e
    ∙ ap (main_loop rs) (round_step-rounded r s)

rounded-quits :
    (r : Round) (s : App) (b : Bool) → s.quitting ≡ false → r.quits ≡ b → (rounded r s).quitting ≡ b
rounded-quits r s b e q = ap (λ x. x || r.quits) e ∙ q

pub main_loop-quits :
    (before : List Round) (r : Round) (after : List Round) (s : App)
    → All (λ x. x.quits ≡ false) before
    → r.quits ≡ true
    → s.quitting ≡ false
    → main_loop (before ++ (r ∷ after)) s ≡ some (quitted (before ++ (r ∷ [])) s)
main_loop-quits [] r after s all q e =
    main_loop-next r after s e
    ∙ main_loop-quitting after (rounded r s) (rounded-quits r s true e q)
    ∙ ap some (
        ap (λ b. record (rounded r s) { quitting = b }) (rounded-quits r s true e q)
        ∙ ap
            (λ l. record (quitted (r ∷ []) s) {
              trace = s.trace ++ (Event.main_action (add_u64 s.update_id 1) ∷ l);
            })
            (sym (append-nil (level_events (level_of s.thresholds r.update_time) r.update_time))))
main_loop-quits (x ∷ before) r after s (qx, all) q e =
    main_loop-next x (before ++ (r ∷ after)) s e
    ∙ main_loop-quits before r after (rounded x s) all q (rounded-quits x s false e qx)
    ∙ ap (λ l. some (record (quitted (x ∷ (before ++ (r ∷ []))) s) { trace = l }))
        (append_assoc s.trace
          (Event.main_action (add_u64 s.update_id 1)
            ∷ level_events (level_of s.thresholds x.update_time) x.update_time)
          (round_events s.thresholds (add_u64 s.update_id 1) (before ++ (r ∷ []))))
