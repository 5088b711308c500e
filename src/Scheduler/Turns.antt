-- ===== src/Scheduler/Turns.antt =====
-- The turns of the tasks, and the frames that are saved.
use innovati_os.Base.{
  ℕ, suc, ◌+◌, ◌-◌, ◌%◌, ◌^◌, ◌≤◌, ◌<◌, ◌≡◌, ◌≢◌, refl, ap, sym, subst, ◌∙◌, inl, inr, ◌⊎◌, Bool,
  true, false, not, ◌||◌, List, [], ◌∷◌, ◌==◌, ltb, leb, if◌then◌else◌, update, update_self,
  update_ne, arith, length, add64, sub64, ℕ_discrete,
}
use native.Mathlib.Nat.{mod_self, mod-eq_of_lt}
use innovati_os.Scheduler.{
  Frame, Scheduler, Tick, update_demo_overlay, log_tick, switch, scheduler_on_timer,
}

-- The task that is current at the next tick.
next_of : ℕ → ℕ → ℕ
next_of i n = if i + 1 == n then 0 else i + 1

next_of_lem : (i n : ℕ) → i < n → n < 2 ^ 64 → add64 i 1 % n ≡ next_of i n
unfolding next_of
next_of_lem i n lt small =
    let word : add64 i 1 ≡ i + 1 = omega arith in
    elim (ℕ_discrete (i + 1) n) [
      | yes last ↦ ap (λ k. k % n) (word ∙ last) ∙ mod_self n ∙ ground (arith, last)
      | no inner ↦
          (let below : i + 1 < n = omega arith in
            ap (λ k. k % n) word ∙ mod-eq_of_lt below ∙ ground (arith, inner))
    ]

-- What the switch reads is the same.
record Same (s s' : Scheduler) : Type 0 where
  tasks : s'.tasks ≡ s.tasks
  task_count : s'.task_count ≡ s.task_count
  current_task : s'.current_task ≡ s.current_task
  running : s'.running ≡ s.running

if-Same : (b : Bool) (s x y : Scheduler) → Same s x → Same s y → Same s (if b then x else y)
if-Same true s x y hx hy = hx
if-Same false s x y hx hy = hy

overlay-Same : (width height : ℕ) (s : Scheduler) → Same s (update_demo_overlay width height s)
unfolding update_demo_overlay
overlay-Same width height s =
    if-Same ((width == 0) || (height == 0)) s s _
      (record { tasks = refl; task_count = refl; current_task = refl; running = refl })
      (record { tasks = refl; task_count = refl; current_task = refl; running = refl })

log_tick-Same : (ticks : ℕ) (s z : Scheduler) → Same z s → Same z (log_tick ticks s)
unfolding log_tick
log_tick-Same ticks s z h =
    if-Same (leb 100 (sub64 ticks s.last_tick_log)) z _ s
      (record {
        tasks = h.tasks;
        task_count = h.task_count;
        current_task = h.current_task;
        running = h.running;
      })
      h

-- One tick of the timer, with the tasks running.
record Turned (s : Scheduler) (tick : Tick) (s' : Scheduler) (frame : Frame) : Type 0 where
  saved :
      s'.tasks
      ≡ update s.tasks s.current_task (record (s.tasks s.current_task) { frame = tick.frame })
  resumed : frame ≡ (s'.tasks s'.current_task).frame
  next : s'.current_task ≡ next_of s.current_task s.task_count
  same_count : s'.task_count ≡ s.task_count
  still : s'.running ≡ s.running

switch-Turned :
    (z s : Scheduler) (tick : Tick)
    → Same z s
    → z.current_task < z.task_count
    → z.task_count < 2 ^ 64
    → Turned z tick (switch s tick.frame).0 (switch s tick.frame).1
unfolding switch
switch-Turned z s tick h lt small = record {
  saved =
      ap (λ i. update s.tasks i (record (s.tasks i) { frame = tick.frame })) h.current_task
      ∙ ap (λ m. update m z.current_task (record (m z.current_task) { frame = tick.frame }))
          h.tasks;
  resumed = refl;
  next =
      ap (λ i. add64 i 1 % s.task_count) h.current_task
      ∙ ap (λ n. add64 z.current_task 1 % n) h.task_count
      ∙ next_of_lem z.current_task z.task_count lt small;
  same_count = h.task_count;
  still = h.running;
}

timer-Turned :
    (s : Scheduler) (tick : Tick)
    → s.running ≡ true
    → 2 ≤ s.task_count
    → s.current_task < s.task_count
    → s.task_count < 2 ^ 64
    → Turned s tick (scheduler_on_timer s tick).0 (scheduler_on_timer s tick).1
unfolding scheduler_on_timer
timer-Turned s tick on two lt small =
    let logged : Scheduler = log_tick tick.ticks (update_demo_overlay tick.width tick.height s) in
    let h : Same s logged = log_tick-Same tick.ticks _ s (overlay-Same tick.width tick.height s) in
    let some_task : (s.task_count == 0) ≡ false = ground (arith, two) in
    let switches : (not logged.running || ltb logged.task_count 2) ≡ false =
      ground (arith, two, on, h.running, h.task_count) in
    let result : Scheduler × Frame =
      if s.task_count == 0
      then (s, tick.frame)
      else if not logged.running || ltb logged.task_count 2
      then (logged, tick.frame)
      else switch logged tick.frame in
    let run : result ≡ switch logged tick.frame = ground (arith, some_task, switches) in
    subst (λ r. Turned s tick r.0 r.1) (sym run) (switch-Turned s logged tick h lt small)

-- The interrupts one after the other, the last one's frame at the end.
unfoldable pub run_ticks : Scheduler → Tick → List Tick → Scheduler × Frame
run_ticks s tick [] = scheduler_on_timer s tick
run_ticks s tick (t ∷ ts) = run_ticks (scheduler_on_timer s tick).0 t ts

-- How many ticks are left until the task `c` is current again.
abbrev distance : ℕ → ℕ → ℕ → ℕ
distance i c n = if ltb i c then c - i else c + n - i

next_of-below : (i n : ℕ) → i < n → next_of i n < n
unfolding next_of
next_of-below i n lt = ground (arith, lt)

next_of-other : (i n : ℕ) → i < n → 2 ≤ n → i ≢ next_of i n
unfolding next_of
next_of-other i n lt two = elim (ℕ_discrete (i + 1) n) [
  | yes last ↦ λ e. absurd (ground (arith, last, e, two))
  | no inner ↦ λ e. absurd (ground (arith, inner, e))
]

-- A tick is one step nearer.
distance-next_of :
    (i c n k : ℕ)
    → i < n
    → c < n
    → c ≢ i
    → k + 1 ≡ distance i c n
    → ((k ≡ 0) × (next_of i n ≡ c)) ⊎ ((c ≢ next_of i n) × (k ≡ distance (next_of i n) c n))
unfolding next_of
distance-next_of i c n k lt lc ne far = elim (ℕ_discrete (if i + 1 == n then 0 else i + 1) c) [
  | yes e ↦ inl (ground (arith, far, e), e)
  | no other ↦ inr (λ e. other (sym e), ground (arith, far, other))
]

distance-back : (i n : ℕ) → i < n → 2 ≤ n → n ≡ distance (next_of i n) i n + 1
unfolding next_of
distance-back i n lt two = ground (arith, lt, two)

-- The frame of another task stays.
kept :
    (s : Scheduler) (tick : Tick) (s' : Scheduler) (frame : Frame) (c : ℕ)
    → Turned s tick s' frame
    → c ≢ s.current_task
    → (s'.tasks c).frame ≡ (s.tasks c).frame
kept s tick s' frame c h ne =
    ap (λ m. (m c).frame) h.saved
    ∙ ap (λ p. p.frame)
        (update_ne s.tasks s.current_task (record (s.tasks s.current_task) { frame = tick.frame }) c
          ne)

run_ticks_lem :
    (s : Scheduler) (tick : Tick) (ts : List Tick) (c : ℕ) (f : Frame)
    → s.running ≡ true
    → 2 ≤ s.task_count
    → s.current_task < s.task_count
    → s.task_count < 2 ^ 64
    → c < s.task_count
    → c ≢ s.current_task
    → (s.tasks c).frame ≡ f
    → length ts + 1 ≡ distance s.current_task c s.task_count
    → ((run_ticks s tick ts).1 ≡ f) × ((run_ticks s tick ts).0.current_task ≡ c)
unfolding run_ticks
run_ticks_lem s tick [] c f on two lt small lc ne held far =
    let h = timer-Turned s tick on two lt small in
    let r : Scheduler × Frame = scheduler_on_timer s tick in
    elim (distance-next_of s.current_task c s.task_count 0 lt lc ne far) [
      | inl near ↦ (
        h.resumed
            ∙ ap (λ k. (r.0.tasks k).frame) (h.next ∙ near.1)
            ∙ kept s tick r.0 r.1 c h ne
            ∙ held,
        h.next ∙ near.1,
      )
      | inr later ↦
          absurd
            (ground (arith, later.1, later.0, next_of-below s.current_task s.task_count lt, lc))
    ]
run_ticks_lem s tick (t ∷ ts) c f on two lt small lc ne held far =
    let h = timer-Turned s tick on two lt small in
    let r : Scheduler × Frame = scheduler_on_timer s tick in
    elim (distance-next_of s.current_task c s.task_count (suc (length ts)) lt lc ne
      (omega (arith, far))) [
        | inl near ↦ absurd (omega (arith, near.0))
        | inr later ↦
            run_ticks_lem r.0 t ts c f (h.still ∙ on) (omega (arith, h.same_count))
              (omega (arith, h.same_count, h.next, next_of-below s.current_task s.task_count lt))
              (omega (arith, h.same_count)) (omega (arith, h.same_count))
              (λ e. later.0 (e ∙ h.next)) (kept s tick r.0 r.1 c h ne ∙ held)
              (nearer later.1 h.next h.same_count)
      ]
  where
    nearer :
        {i m : ℕ}
        → suc (length ts) ≡ distance (next_of s.current_task s.task_count) c s.task_count
        → i ≡ next_of s.current_task s.task_count
        → m ≡ s.task_count
        → length ts + 1 ≡ distance i c m
    nearer {i = i} e next count =
        let one : length ts + 1 ≡ suc (length ts) = omega arith in
        one
        ∙ e
        ∙ ap (λ j. distance j c s.task_count) (sym next)
        ∙ ap (λ k. distance i c k) (sym count)

-- With n tasks, 2 <= n < 2^64, the scheduler running and its current task one of them, n timer
-- interrupts in a row, whatever the frames of the later ones are, end with the first task current
-- again and resumed with exactly the frame in which the first of them found it.
pub run_ticks-resumes :
    (s : Scheduler) (tick t : Tick) (ts : List Tick)
    → s.running ≡ true
    → 2 ≤ s.task_count
    → s.current_task < s.task_count
    → s.task_count < 2 ^ 64
    → length ts + 2 ≡ s.task_count
    → ((run_ticks s tick (t ∷ ts)).1 ≡ tick.frame)
      × ((run_ticks s tick (t ∷ ts)).0.current_task ≡ s.current_task)
unfolding run_ticks
run_ticks-resumes s tick t ts on two lt small all =
    let h = timer-Turned s tick on two lt small in
    let r : Scheduler × Frame = scheduler_on_timer s tick in
    let own : (r.0.tasks s.current_task).frame ≡ tick.frame =
      ap (λ m. (m s.current_task).frame) h.saved
      ∙ ap (λ p. p.frame)
          (update_self s.tasks s.current_task
            (record (s.tasks s.current_task) { frame = tick.frame })) in
    run_ticks_lem r.0 t ts s.current_task tick.frame (h.still ∙ on) (omega (arith, h.same_count))
      (omega (arith, h.same_count, h.next, next_of-below s.current_task s.task_count lt))
      (omega (arith, h.same_count)) (omega (arith, h.same_count))
      (λ e. next_of-other s.current_task s.task_count lt two (e ∙ h.next)) own
      (turns (distance (next_of s.current_task s.task_count) s.current_task s.task_count)
          (distance-back s.current_task s.task_count lt two)
        ∙ ap (λ j. distance j s.current_task s.task_count) (sym h.next)
        ∙ ap (λ k. distance r.0.current_task s.current_task k) (sym h.same_count))
  where
    turns : (d : ℕ) → s.task_count ≡ d + 1 → length ts + 1 ≡ d
    turns d e = omega (arith, all, e)
