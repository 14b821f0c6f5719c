-- ===== src/Sink/Held.antt =====
-- src/sink.rs: the permits and the completions of the jobs that are not finished.
use whaletracker.Prelude.{
  ℕ, zero, suc, ◌+◌, ◌≡◌, refl, sym, ap, ◌∙◌, List, [], ◌∷◌, ◌++◌, arith, ◌==◌, if◌then◌else◌,
  length, append_assoc, append-nil, Bool-cases, inl, inr,
}
use whaletracker.Journal.{StoredWrite}
use whaletracker.Sql.Classify.{Classification}
use whaletracker.Sql.Lane.{Lane, online, stats, logs, lane_eq}
use whaletracker.Admission.{Admission, Permit}
use whaletracker.Admission.Capacity.{Sound, Sound-move}
use whaletracker.Admission.Completion.{Completion}
use whaletracker.Sink.{Sink, Job}
use whaletracker.Sink.Publish.{Classed}
use whaletracker.Sink.Steps.{lane_jobs, only_at, line_up}

-- The jobs of the three lanes.
abbrev pub join : (Lane → List Job) → List Job
join f = f online ++ (f stats ++ f logs)

abbrev pub job_permits : List Job → List Permit
job_permits [] = []
job_permits (j ∷ js) = j.permit ∷ job_permits js

-- How many of the jobs count down the completion `i`.
abbrev pub waiting_for : ℕ → List Job → ℕ
waiting_for i [] = 0
waiting_for i (j ∷ js) = (if j.completion == i then 1 else 0) + waiting_for i js

abbrev pub remaining_at : List Completion → ℕ → ℕ
remaining_at [] i = 0
remaining_at (c ∷ cs) zero = c.remaining
remaining_at (c ∷ cs) (suc i) = remaining_at cs i

-- The admission holds the permits of these jobs, and each completion counts its own of them.
pub record HeldBy (a : Admission) (cs : List Completion) (jobs : List Job) : Type 0 where
  pub sound : Sound a (job_permits jobs)
  pub counted : (i : ℕ) → remaining_at cs i ≡ waiting_for i jobs

-- The jobs that are not finished hold what is reserved, and nothing else does.
abbrev pub Held : Sink → Type 0
Held s = HeldBy s.admission s.completions (join (line_up s))

pub job_permits-append :
    (xs ys : List Job) → job_permits (xs ++ ys) ≡ job_permits xs ++ job_permits ys
job_permits-append [] ys = refl
job_permits-append (x ∷ xs) ys = ap (◌∷◌ x.permit) (job_permits-append xs ys)

pub waiting_for-append :
    (i : ℕ) (xs ys : List Job) → waiting_for i (xs ++ ys) ≡ waiting_for i xs + waiting_for i ys
waiting_for-append i [] ys = omega arith
waiting_for-append i (x ∷ xs) ys = omega (arith, waiting_for-append i xs ys)

pub waiting_for-join :
    (i : ℕ) (f : Lane → List Job)
    → waiting_for i (join f)
      ≡ waiting_for i (f online) + (waiting_for i (f stats) + waiting_for i (f logs))
waiting_for-join i f = omega (
  arith,
  waiting_for-append i (f online) (f stats ++ f logs),
  waiting_for-append i (f stats) (f logs),
)

-- The first permit of a batch goes behind any of the permits that are held.
Sound-shift :
    (a : Admission) (p : Permit) (ps xs ys : List Permit)
    → Sound a (p ∷ (ps ++ (xs ++ ys)))
    → Sound a (ps ++ ((xs ++ p ∷ []) ++ ys))
Sound-shift a p ps xs ys v =
    rw (append_assoc xs (p ∷ []) ys, ← append_assoc ps xs (p ∷ ys))
      (Sound-move a (ps ++ xs) p ys (rw (append_assoc ps xs ys) v))

-- A batch that is spread over the lanes.
abbrev pub spread : (Lane → List Job) → List Classed → List Permit → ℕ → Lane → List Job
spread f batch ps i k = f k ++ lane_jobs k batch ps i

abbrev push : (Lane → List Job) → Lane → Job → Lane → List Job
push f l j k = f k ++ only_at l (j ∷ []) k

-- Where a job stands that is put at the end of a lane.
record Place (f g : Lane → List Job) (j : Job) : Type 0 where
  pre : List Job
  post : List Job
  before : join f ≡ pre ++ post
  after : join g ≡ (pre ++ j ∷ []) ++ post

place : (l : Lane) (f : Lane → List Job) (j : Job) → Place f (push f l j) j
unfolding lane_eq
place online f j = record {
  pre = f online;
  post = f stats ++ f logs;
  before = refl;
  after = rw (append-nil (f stats), append-nil (f logs)) refl;
}
place stats f j = record {
  pre = f online ++ f stats;
  post = f logs;
  before = sym (append_assoc (f online) (f stats) (f logs));
  after =
      rw (append-nil (f online), append-nil (f logs), append_assoc (f online) (f stats) (j ∷ []))
        (sym (append_assoc (f online) (f stats ++ j ∷ []) (f logs)));
}
place logs f j = record {
  pre = f online ++ (f stats ++ f logs);
  post = [];
  before = sym (append-nil (join f));
  after =
      rw
        (
          append-nil (f online),
          append-nil (f stats),
          append-nil (join f ++ j ∷ []),
          append_assoc (f online) (f stats ++ f logs) (j ∷ []),
          append_assoc (f stats) (f logs) (j ∷ []),
        )
        refl;
}

Sound-push :
    (l : Lane) (a : Admission) (ps : List Permit) (f : Lane → List Job) (j : Job)
    → Sound a (j.permit ∷ (ps ++ job_permits (join f)))
    → Sound a (ps ++ job_permits (join (push f l j)))
Sound-push l a ps f j v =
    let w = place l f j in
    rw (w.after, job_permits-append (w.pre ++ j ∷ []) w.post, job_permits-append w.pre (j ∷ []))
      (Sound-shift a j.permit ps (job_permits w.pre) (job_permits w.post)
        (rw (w.before, job_permits-append w.pre w.post) at v))

spread-push :
    (f : Lane → List Job) (w : StoredWrite) (c : Classification) (rest : List Classed) (p : Permit)
    (ps : List Permit) (i : ℕ) (k : Lane)
    → spread
        (push f c.lane (record { write = w; classification = c; permit = p; completion = i }))
        rest
        ps
        i
        k
      ≡ spread f ((w, c) ∷ rest) (p ∷ ps) i k
spread-push f w c rest p ps i k =
    let j : Job = record { write = w; classification = c; permit = p; completion = i } in
    append_assoc (f k) (only_at c.lane (j ∷ []) k) (lane_jobs k rest ps i)
    ∙ ap (◌++◌ (f k)) (elim (Bool-cases (lane_eq c.lane k)) [
      | inl here ↦ rw here refl
      | inr there ↦ rw there refl
    ])

pub join-same : (f g : Lane → List Job) → ((k : Lane) → f k ≡ g k) → join f ≡ join g
join-same f g h = rw (h online, h stats, h logs) refl

pub Sound-spread :
    (batch : List Classed) (ps : List Permit) (a : Admission) (f : Lane → List Job) (i : ℕ)
    → length batch ≡ length ps
    → Sound a (ps ++ job_permits (join f))
    → Sound a (job_permits (join (spread f batch ps i)))
Sound-spread [] [] a f i e v =
    rw (append-nil (f online), append-nil (f stats), append-nil (f logs)) v
Sound-spread [] (p ∷ ps) a f i e v = absurd (omega (arith, e))
Sound-spread ((w, c) ∷ rest) [] a f i e v = absurd (omega (arith, e))
Sound-spread ((w, c) ∷ rest) (p ∷ ps) a f i e v =
    let j : Job = record { write = w; classification = c; permit = p; completion = i } in
    let g = push f c.lane j in
    rw
      (← join-same (spread g rest ps i) (spread f ((w, c) ∷ rest) (p ∷ ps) i)
        (spread-push f w c rest p ps i))
      (Sound-spread rest ps a g i (omega (arith, e)) (Sound-push c.lane a ps f j v))

-- A job goes to one lane.
waiting_for-one :
    (l : Lane) (i : ℕ) (j : Job) (xs ys zs : List Job)
    → waiting_for i (if lane_eq l online then j ∷ xs else xs)
        + (waiting_for i (if lane_eq l stats then j ∷ ys else ys)
            + waiting_for i (if lane_eq l logs then j ∷ zs else zs))
      ≡ (if j.completion == i then 1 else 0)
        + (waiting_for i xs + (waiting_for i ys + waiting_for i zs))
unfolding lane_eq
waiting_for-one online i j xs ys zs = omega arith
waiting_for-one stats i j xs ys zs = omega arith
waiting_for-one logs i j xs ys zs = omega arith

pub waiting_for-lanes :
    (batch : List Classed) (ps : List Permit) (i n : ℕ)
    → length batch ≡ length ps
    → waiting_for i (lane_jobs online batch ps n)
        + (waiting_for i (lane_jobs stats batch ps n) + waiting_for i (lane_jobs logs batch ps n))
      ≡ (if n == i then length batch else 0)
waiting_for-lanes [] ps i n e = ground arith
waiting_for-lanes ((w, c) ∷ rest) [] i n e = absurd (omega (arith, e))
waiting_for-lanes ((w, c) ∷ rest) (p ∷ ps) i n e =
    let j : Job = record { write = w; classification = c; permit = p; completion = n } in
    ground (
      arith,
      waiting_for-one c.lane i j (lane_jobs online rest ps n) (lane_jobs stats rest ps n)
          (lane_jobs logs rest ps n),
      waiting_for-lanes rest ps i n (omega (arith, e)),
    )

remaining_at-append :
    (cs : List Completion) (c : Completion) (i : ℕ)
    → remaining_at (cs ++ c ∷ []) i
      ≡ remaining_at cs i + (if length cs == i then c.remaining else 0)
remaining_at-append [] c zero = ground arith
remaining_at-append [] c (suc i) = ground arith
remaining_at-append (d ∷ cs) c zero = ground arith
remaining_at-append (d ∷ cs) c (suc i) = ground (arith, remaining_at-append cs c i)

-- The jobs of a granted batch hold their permits and count down its completion.
pub HeldBy-spread :
    (a : Admission) (cs : List Completion) (c : Completion) (f : Lane → List Job)
    (batch : List Classed) (ps : List Permit)
    → length batch ≡ length ps
    → c.remaining ≡ length batch
    → Sound a (ps ++ job_permits (join f))
    → ((i : ℕ) → remaining_at cs i ≡ waiting_for i (join f))
    → HeldBy a (cs ++ c ∷ []) (join (spread f batch ps (length cs)))
HeldBy-spread a cs c f batch ps e r v counted = record {
  sound = Sound-spread batch ps a f (length cs) e v;
  counted = λ i. ground (
    arith,
    remaining_at-append cs c i,
    counted i,
    waiting_for-join i f,
    waiting_for-join i (spread f batch ps (length cs)),
    waiting_for-append i (f online) (lane_jobs online batch ps (length cs)),
    waiting_for-append i (f stats) (lane_jobs stats batch ps (length cs)),
    waiting_for-append i (f logs) (lane_jobs logs batch ps (length cs)),
    waiting_for-lanes batch ps i (length cs) e,
  );
}
