-- ===== src/Simulation/Cpu/Slice.antt =====
-- mini_os_simulator/os_core/simulation.py, `_cpu_step`: the ticks of a process from its dispatch to
-- the end of its quantum, without paging.
use smart_device_io_t_operat.Prelude.{
  nat_key, ℕ, zero, suc, ◌+◌, ◌<◌, ◌≡◌, refl, sym, ◌∙◌, ap, false, some, ◌==◌, leb, arith,
}
use smart_device_io_t_operat.Process.Pcb.{Pcb, ready}
use smart_device_io_t_operat.Simulation.State.{Simulation, pcb_of, update_pcb}
use smart_device_io_t_operat.Simulation.State.Blocks.{pcb_of-update_pcb}
use smart_device_io_t_operat.Simulation.Cpu.{
  run_current, begin_slice, access, execute, end_tick, work, quantum_of, advance_sim_clock,
}
use smart_device_io_t_operat.Simulation.Cpu.Tick.{execute_expires, queued_once}
use smart_device_io_t_operat.Simulation.Cpu.Slicing.{
  after, slice, IsSlicing, IsExpired, begin_slice-IsSlicing,
}

-- Without paging a round executes the process.
round_executes :
    (pid : ℕ) (t : Simulation) (b : Pcb)
    → pcb_of pid (begin_slice pid t) ≡ some b
    → (begin_slice pid t).enable_memory_access ≡ false
    → after (run_current pid t) ≡ execute b (begin_slice pid t)
unfolding run_current access
round_executes pid t b e h = simp (e, h, run_current) refl

worked :
    (pid k : ℕ) (p : Pcb) (s t : Simulation) (v : IsSlicing pid k p s t)
    → k < p.remaining_time
    → ((work v.done.block).remaining_time + suc k ≡ p.remaining_time)
      × ((work v.done.block).program_counter ≡ p.program_counter + suc k)
worked pid k p s t v l =
    (ground (arith, v.done.left, l), ground (arith, v.done.left, v.done.counter, l))

-- A tick before the last of the quantum.
execute-IsSlicing :
    (pid k : ℕ) (p : Pcb) (s t : Simulation) (v : IsSlicing pid k p s t)
    → suc k < p.remaining_time
    → suc k < quantum_of s.scheduler.policy
    → IsSlicing pid (suc k) p s (execute v.done.block t)
unfolding execute end_tick
execute-IsSlicing pid k p s t v l q =
    let b = v.done.block in
    let t₁ =
      advance_sim_clock
        (record (update_pcb b.pid work t) { ticks_in_slice = t.ticks_in_slice + 1 }) in
    let (left, counter) = worked pid k p s t v (omega (arith, l)) in
    let more : ((work b).remaining_time == 0) ≡ false = ground (arith, left, l) in
    let quantum : quantum_of t.scheduler.policy ≡ quantum_of s.scheduler.policy =
      ap (λ x. quantum_of x.policy) v.scheduler in
    let goes : leb (quantum_of t.scheduler.policy) (t.ticks_in_slice + 1) ≡ false =
      ground (arith, quantum, v.in_slice, q) in
    let there : pcb_of pid t₁ ≡ some (work b) =
      ap (λ n. pcb_of pid (update_pcb n work t)) v.done.own_pid
      ∙ pcb_of-update_pcb pid work t b v.done.there in
    rw (more, end_tick)
      (rw goes (record {
        done = record {
          block = work b;
          there = there;
          own_pid = ground (arith, v.done.own_pid);
          left = left;
          counter = counter;
        };
        in_slice = omega (arith, v.in_slice);
        no_paging = v.no_paging;
        scheduler = v.scheduler;
        current = v.current;
        clock = omega (arith, v.clock);
      }))

-- The last tick of the quantum.
execute-IsExpired :
    (pid k : ℕ) (p : Pcb) (s t : Simulation) (v : IsSlicing pid k p s t)
    → suc k < p.remaining_time
    → suc k ≡ quantum_of s.scheduler.policy
    → IsExpired pid (suc k) p s (execute v.done.block t)
execute-IsExpired pid k p s t v l q =
    let b = v.done.block in
    let (left, counter) = worked pid k p s t v (omega (arith, l)) in
    let quantum : quantum_of t.scheduler.policy ≡ quantum_of s.scheduler.policy =
      ap (λ x. quantum_of x.policy) v.scheduler in
    let (there, queue, off) =
      execute_expires b t (ap (λ n. pcb_of n t) v.done.own_pid ∙ v.done.there)
        (omega (arith, v.done.left, l)) (omega (arith, quantum, v.in_slice, q)) in
    record {
      done = record {
        block = record (work b) { state = ready };
        there = ap (λ n. pcb_of n (execute b t)) (sym v.done.own_pid) ∙ there;
        own_pid = ground (arith, v.done.own_pid);
        left = left;
        counter = counter;
      };
      is_ready = refl;
      queue =
          queue
          ∙ ap (λ n. queued_once n t.scheduler.ready_queue) v.done.own_pid
          ∙ ap (λ x. queued_once pid x.ready_queue) v.scheduler;
      off = off;
    }

-- The rounds before the end of the quantum.
slice-IsSlicing :
    (k pid : ℕ) (p : Pcb) (s : Simulation)
    → k < quantum_of s.scheduler.policy
    → k < p.remaining_time
    → IsSlicing pid 0 p s s
    → IsSlicing pid k p s (slice k pid s)
unfolding slice
slice-IsSlicing zero pid p s q l v = v
slice-IsSlicing (suc k) pid p s q l v =
    let t = slice k pid s in
    let w =
      begin_slice-IsSlicing pid k p s t
        (slice-IsSlicing k pid p s (omega (arith, q)) (omega (arith, l)) v) in
    rw (round_executes pid t w.done.block w.done.there w.no_paging)
      (execute-IsSlicing pid k p s (begin_slice pid t) w l q)

slice-IsExpired :
    (k pid : ℕ) (p : Pcb) (s : Simulation)
    → suc k ≡ quantum_of s.scheduler.policy
    → suc k < p.remaining_time
    → IsSlicing pid 0 p s s
    → IsExpired pid (suc k) p s (slice (suc k) pid s)
unfolding slice
slice-IsExpired k pid p s q l v =
    let t = slice k pid s in
    let w =
      begin_slice-IsSlicing pid k p s t
        (slice-IsSlicing k pid p s (omega (arith, q)) (omega (arith, l)) v) in
    rw (round_executes pid t w.done.block w.done.there w.no_paging)
      (execute-IsExpired pid k p s (begin_slice pid t) w l q)

-- Without paging, from the start of a slice of a process whose block stands under its own pid,
-- in any state, with more work left than a positive quantum: after fewer rounds of the CPU for
-- it than the quantum, it has done one unit of work for each, the clock has moved on as far, and
-- the scheduler and the process on the CPU are as before; after as many rounds as the quantum,
-- it has done as many units, is READY, is at the end of the queue unless it was queued already,
-- and the CPU is free.
pub slice_takes_quantum :
    (pid : ℕ) (p : Pcb) (s : Simulation)
    → pcb_of pid s ≡ some p
    → p.pid ≡ pid
    → s.enable_memory_access ≡ false
    → s.ticks_in_slice ≡ 0
    → 0 < quantum_of s.scheduler.policy
    → quantum_of s.scheduler.policy < p.remaining_time
    → ((k : ℕ) → k < quantum_of s.scheduler.policy → IsSlicing pid k p s (slice k pid s))
      × IsExpired pid
          (quantum_of s.scheduler.policy)
          p
          s
          (slice (quantum_of s.scheduler.policy) pid s)
slice_takes_quantum pid p s e own paging fresh some_quantum long =
    let v : IsSlicing pid 0 p s s = record {
      done = record {
        block = p;
        there = e;
        own_pid = own;
        left = omega arith;
        counter = omega arith;
      };
      in_slice = fresh;
      no_paging = paging;
      scheduler = refl;
      current = refl;
      clock = omega arith;
    } in
    (
      λ k h. slice-IsSlicing k pid p s h (omega (arith, h, long)) v,
      at_end (quantum_of s.scheduler.policy) refl v,
    )
  where
    at_end :
        (n : ℕ)
        → n ≡ quantum_of s.scheduler.policy
        → IsSlicing pid 0 p s s
        → IsExpired pid n p s (slice n pid s)
    at_end zero q v = absurd (omega (arith, q, some_quantum))
    at_end (suc k) q v = slice-IsExpired k pid p s q (omega (arith, q, long)) v
