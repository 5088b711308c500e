-- ===== src/Scheduler/Tests.antt =====
-- Witnesses for the scheduler.
use innovati_os.Base.{◌≡◌, refl, true, [], ◌∷◌, arith}
use innovati_os.Scheduler.{
  Scheduler, Tick, scheduler_on_timer, logo_width, logo_height, room_beside,
}
use innovati_os.Scheduler.Init.{zero_frame, no_task}
use innovati_os.Scheduler.Turns.{run_ticks, run_ticks-resumes}
use innovati_os.Scheduler.Overlay.{OnScreen, IsSmall, NoOverflow, scheduler_on_timer-OnScreen}

-- Two tasks, the first one running, on a screen of 800 by 600.
abbrev two_tasks : Scheduler
two_tasks = record {
  tasks = λ i. no_task;
  task_count = 2;
  current_task = 0;
  next_pid = 3;
  switch_count = 0;
  running = true;
  anim_x = 100;
  anim_y = 100;
  anim_dx = 4;
  anim_dy = 3;
  anim_max_x = room_beside 800 logo_width;
  anim_max_y = room_beside 600 logo_height;
  last_tick_log = 0;
}

abbrev tick : Tick
tick = record { width = 800; height = 600; ticks = 7; frame = record zero_frame { rip = 4 } }

run_ticks-resumes_example :
    ((run_ticks two_tasks tick (tick ∷ [])).1 ≡ tick.frame)
    × ((run_ticks two_tasks tick (tick ∷ [])).0.current_task ≡ two_tasks.current_task)
run_ticks-resumes_example =
    run_ticks-resumes two_tasks tick tick [] refl (omega arith) (omega arith) (omega arith)
      (omega arith)

speeds-IsSmall : IsSmall 100 × IsSmall 4 × IsSmall 3
unfolding IsSmall
speeds-IsSmall = (
  (omega arith, omega arith, omega arith),
  (omega arith, omega arith, omega arith),
  (omega arith, omega arith, omega arith),
)

scheduler_on_timer-OnScreen_example :
    OnScreen 800 600 (scheduler_on_timer two_tasks tick).0 × NoOverflow 100 4 × NoOverflow 100 3
scheduler_on_timer-OnScreen_example =
    scheduler_on_timer-OnScreen two_tasks tick (omega arith) (omega arith) (omega arith)
      (omega arith) (omega arith) refl refl speeds-IsSmall.0 speeds-IsSmall.1 speeds-IsSmall.0
      speeds-IsSmall.2
