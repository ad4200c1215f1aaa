-- ===== src/Process/Fork/Publish.antt =====
-- A new process among the others: its pid, and its place in the list and the hash table.
use os_edf.Prelude.{
  ℕ, suc, ◌≡◌, ◌≢◌, ◌≤◌, ◌<◌, refl, ap, ◌∙◌, List, [], ◌∷◌, map, Bool-cases, inl, inr, arith,
  length,
}
use os_edf.Prelude.Int.{pos, ◌+ℤ◌}
use os_edf.Prelude.Run.{Ends, ends, Ends-bind}
use os_edf.Kernel.{Kernel, Proc, Procs, modify, put_proc}
use os_edf.Links.{Links}
use os_edf.Links.Chain.{NotIn}
use os_edf.Process.{System, set_family, set_links, hash_proc, pids_of}
use os_edf.Process.Pids.{PidState, max_pid, max_process}
use os_edf.Process.Pids.Scan.{Free}
use os_edf.Process.Pids.Fresh.{Spaced, get_pid-Spaced}
use os_edf.Process.Fork.{publish, flag_set, clone_thread}

pid-set_family : (p : ℕ) (ps : Procs) (q : ℕ) → (set_family p ps q).pid ≡ (ps q).pid
unfolding set_family
pid-set_family p ps q = ground arith

pub map-pid :
    (ps qs : Procs) (p : ℕ) (l : List ℕ)
    → ((q : ℕ) → p ≢ q → (qs q).pid ≡ (ps q).pid)
    → NotIn p l
    → map (λ q. (qs q).pid) l ≡ map (λ q. (ps q).pid) l
map-pid ps qs p [] same n = refl
map-pid ps qs p (x ∷ l) same n = rw (same x n.0, map-pid ps qs p l same n.1) refl

length-map_pid : (ps : Procs) (l : List ℕ) → length (map (λ q. (ps q).pid) l) ≡ length l
length-map_pid ps [] = refl
length-map_pid ps (x ∷ l) = ap suc (length-map_pid ps l)

-- What the queue of the EDF class sees of the other processes stays as it is.
pub record Quiet (p : ℕ) (k k' : Kernel) : Type 0 where
  pub heap : k'.heap ≡ k.heap
  pub rqs : k'.rqs ≡ k.rqs
  pub same : (k'.current ≡ k.current) × (k'.idleproc ≡ k.idleproc)
  pub others :
      (q : ℕ) → p ≢ q → ((k'.procs q).pt ≡ (k.procs q).pt) × ((k'.procs q).rq ≡ (k.procs q).rq)

pub Quiet-trans : {p : ℕ} {k k' k'' : Kernel} → Quiet p k k' → Quiet p k' k'' → Quiet p k k''
Quiet-trans v w = record {
  heap = w.heap ∙ v.heap;
  rqs = w.rqs ∙ v.rqs;
  same = (w.same.0 ∙ v.same.0, w.same.1 ∙ v.same.1);
  others = λ q h. ((w.others q h).0 ∙ (v.others q h).0, (w.others q h).1 ∙ (v.others q h).1);
}

pub put_proc-Quiet : (p : ℕ) (k : Kernel) (f : Proc → Proc) → Quiet p k (put_proc k p f)
put_proc-Quiet p k f = record {
  heap = refl;
  rqs = refl;
  same = (refl, refl);
  others = λ q h. (ground arith, ground arith);
}

kept-set_family :
    (p : ℕ) (ps : Procs) (q : ℕ)
    → ((set_family p ps q).pt ≡ (ps q).pt)
      × ((set_family p ps q).rq ≡ (ps q).rq)
      × ((set_family p ps q).state ≡ (ps q).state)
unfolding set_family
kept-set_family p ps q = (ground arith, ground arith, ground arith)

-- The process has a pid that none had, and the table is fit for the next one.
pub record Published (p : ℕ) (s s' : System) : Type 0 where
  pub listed : s'.proc_list ≡ p ∷ s.proc_list
  pub counted : s'.nr_process ≡ s.nr_process +ℤ pos 1
  pub numbered : (s'.kernel.procs p).pid ≡ pos s'.pids.last_pid
  pub in_range : s'.pids.last_pid < max_pid
  pub fresh : Free s'.pids.last_pid (pids_of s)
  pub spaced : Spaced (pids_of s') s'.pids
  pub quiet : Quiet p s.kernel s'.kernel
  pub child :
      ((s'.kernel.procs p).pt ≡ (s.kernel.procs p).pt)
      × ((s'.kernel.procs p).state ≡ (s.kernel.procs p).state)

-- The thread group does not count.
Published-groups :
    (p : ℕ) (s s' : System) (g : Links)
    → Published p s s'
    → Published p s (record s' { groups = g })
Published-groups p s s' g v = record {
  listed = v.listed;
  counted = v.counted;
  numbered = v.numbered;
  in_range = v.in_range;
  fresh = v.fresh;
  spaced = v.spaced;
  quiet = v.quiet;
  child = v.child;
}

-- The process p with the number that get_pid left
numbered_system : ℕ → PidState → System → System
numbered_system p st s = record s {
  pids = st;
  kernel = put_proc s.kernel p (λ q. record q { pid = pos st.last_pid });
}

linked-Published :
    (p : ℕ) (s : System) (st : PidState)
    → NotIn p s.proc_list
    → st.last_pid < max_pid
    → Free st.last_pid (pids_of s)
    → Spaced (pos st.last_pid ∷ pids_of s) st
    → Published p s (set_links p (hash_proc p (numbered_system p st s)))
unfolding set_links hash_proc numbered_system
linked-Published p s st new range free spaced =
    let ps = modify s.kernel.procs p (λ q. record q { pid = pos st.last_pid }) in
    let own : (set_family p ps p).pid ≡ pos st.last_pid = pid-set_family p ps p ∙ ground arith in
    let others =
      map-pid s.kernel.procs (set_family p ps) p s.proc_list
        (λ q h. pid-set_family p ps q ∙ ground arith) new in
    record {
      listed = refl;
      counted = refl;
      numbered = own;
      in_range = range;
      fresh = free;
      spaced = rw (own, others) spaced;
      quiet =
          Quiet-trans (put_proc-Quiet p s.kernel (λ q. record q { pid = pos st.last_pid }))
            (record {
              heap = refl;
              rqs = refl;
              same = (refl, refl);
              others = λ q h. ((kept-set_family p ps q).0, (kept-set_family p ps q).1);
            });
      child =
          ((kept-set_family p ps p).0 ∙ ground arith, (kept-set_family p ps p).2 ∙ ground arith);
    }

-- With at most MAX_PROCESS processes, the new one not among them, and static variables that fit
-- them: the part of a fork that makes the process known ends; the process has a pid below
-- MAX_PID that no other has, heads proc_list, is counted, and the static variables fit the
-- longer list.
pub publish-Published :
    (clone_flags p : ℕ) (s : System)
    → NotIn p s.proc_list
    → length s.proc_list ≤ max_process
    → Spaced (pids_of s) s.pids
    → Ends (Published p s) (publish clone_flags p s)
unfolding publish numbered_system
publish-Published clone_flags p s new few spaced =
    let few' : length (pids_of s) ≤ max_process =
      let same = length-map_pid s.kernel.procs s.proc_list in omega arith in
    Ends-bind (get_pid-Spaced max_pid (pids_of s) s.pids few' (omega arith) spaced) λ st found.
      let done = linked-Published p s st new found.0 found.1 found.2 in
      elim (Bool-cases (flag_set clone_flags clone_thread)) [
        | inl thread ↦ rw thread (ends (Published-groups p s _ _ done))
        | inr alone ↦ rw alone (ends done)
      ]
