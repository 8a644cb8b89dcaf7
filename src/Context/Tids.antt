-- ===== src/Context/Tids.antt =====
-- `ummu_allocate_tid` as a whole.
use openeuler_ummu.Base.{
  ℕ, ◌≡◌, ◌⊎◌, ◌∙◌, ap, refl, sym, arith, ◌==◌, if◌then◌else◌, Bool, true, false, Bool-cases,
  ==_iff, inl, inr, Option, none, some, List, [], ◌∷◌, ◌++◌, enomem,
}
use mathlib.Core.Path.{subst}
use mathlib.Core.Option.{some-injective}
use openeuler_ummu.Queue.Plbi.{TidInfo, zero_tid_info, Request, alloc_tid}
use openeuler_ummu.Queue.Plbi.Ends.{holds, Ready}
use openeuler_ummu.TidMap.{hashmap_get}
use openeuler_ummu.TidMap.Laws.{is_some, insert_fresh}
use openeuler_ummu.Context.{MaptInfo, CtxInfo, World}
use openeuler_ummu.Context.Create.{ummu_get_tid, ummu_put_tid}
use openeuler_ummu.Context.Tid.{
  Reply, answered, create_tid, enter, ummu_check_input_param, ummu_allocate_tid,
}
use openeuler_ummu.Context.Held.{has, Sound, holds-append, given_back}
use openeuler_ummu.Context.Allocate.{QueuesFor, InOrder, ummu_mapt_create-Made}

-- The tid of `info`, which the map does not have, is entered or given back.
abbrev pub Outcome : CtxInfo → TidInfo → CtxInfo → ℕ → Option ℕ → Type 0
Outcome ctx info ctx' status tid =
    ((status ≡ 0) × (tid ≡ some info.tid) × (has ctx' info.tid ≡ true))
    ⊎ (((status == 0) ≡ false) × (tid ≡ none) × (ctx' ≡ ctx))

module _ (ctx : CtxInfo) (sound : Sound ctx) (u : ℕ)
    (fresh : hashmap_get ctx.mapt_map u ≡ none) where
  abbrev with : MaptInfo → CtxInfo
  with m = record ctx { mapt_map = (u, m) ∷ ctx.mapt_map }

  found :
      (m m' : MaptInfo) (t : ℕ)
      → hashmap_get (with m).mapt_map t ≡ some m'
      → (m ≡ m') ⊎ (hashmap_get ctx.mapt_map t ≡ some m')
  unfolding hashmap_get
  found m m' t h = elim (Bool-cases (u == t)) [
    | inl e ↦ inl (some-injective m m' (sym (rw e refl) ∙ h))
    | inr e ↦ inr (sym (rw e refl) ∙ h)
  ]

  with-Sound : (w : World) (m : MaptInfo) → m.valid ≡ 1 → InOrder w m.queue → Sound (with m)
  with-Sound w m v order = record {
    fd = sound.fd;
    is_open = sound.is_open;
    valid = λ t m' h. elim (found m m' t h) [
      | inl e ↦ ap (λ (x : MaptInfo). x.valid == 0) (sym e) ∙ ap (λ (n : ℕ). n == 0) v
      | inr g ↦ sound.valid t m' g
    ];
    ready = λ t m' h. elim (found m m' t h) [
      | inl e ↦ subst (λ (x : MaptInfo). Ready x.queue) e (order.0)
      | inr g ↦ sound.ready t m' g
    ];
  }

  -- a tid that was allocated and given back
  undone_held :
      (rs : List Request)
      → ((t : ℕ) (held : Bool) → holds rs t held ≡ held)
      → (t : ℕ)
      → has ctx t ≡ holds (alloc_tid u ∷ (rs ++ ummu_put_tid ctx.shared_fd u)) t (has ctx t)
  unfolding holds
  undone_held rs none_held t = elim (Bool-cases (u == t)) [
    | inl e ↦
        let same : u ≡ t = (==_iff u t).0 e in
        ap is_some (ap (hashmap_get ctx.mapt_map) (sym same) ∙ fresh)
        ∙ sym (given_back ctx u sound rs none_held t _ ∙ rw e refl)
    | inr e ↦ sym (given_back ctx u sound rs none_held t _ ∙ rw e refl)
  ]

  has-with : (m : MaptInfo) (t : ℕ) → has (with m) t ≡ (if u == t then true else has ctx t)
  unfolding hashmap_get
  has-with m t = elim (Bool-cases (u == t)) [ inl e ↦ rw e refl | inr e ↦ rw e refl ]

  entered_held :
      (m : MaptInfo) (rs : List Request)
      → ((t : ℕ) (held : Bool) → holds rs t held ≡ held)
      → (t : ℕ) → has (with m) t ≡ holds (alloc_tid u ∷ (rs ++ [])) t (has ctx t)
  unfolding holds
  entered_held m rs none_held t = has-with m t ∙ sym (holds-append rs [] t _ ∙ none_held t _)

-- What the kernel promises of the tid that it answers with: nobody has it, and its queues are in order.
pub record Answers (w : World) (ctx : CtxInfo) (answer : ℕ × TidInfo) : Type 0 where
  pub fresh : (answer.0 == 0) ≡ true → hashmap_get ctx.mapt_map (answer.1.tid) ≡ none
  pub queues : QueuesFor w (answer.1)

-- What a call makes of the tids: it ends, the context is sound, and the map has just those tids that
-- the requests leave allocated.
abbrev pub Held : CtxInfo → (CtxInfo → ℕ → Option ℕ → Type 0) → Option Reply → Type 0
Held ctx outcome run =
    (status : ℕ) × (ctx' : CtxInfo) × (tid : Option ℕ) × (rs : List Request) × (run
      ≡ some (status, ctx', tid, rs))
    × Sound ctx'
    × ((t : ℕ) → has ctx' t ≡ holds rs t (has ctx t))
    × outcome ctx' status tid

create_tid-held :
    (w : World) (ctx : CtxInfo) (info : TidInfo)
    → Sound ctx
    → hashmap_get ctx.mapt_map info.tid ≡ none
    → QueuesFor w info
    → (status : ℕ) × (ctx' : CtxInfo) × (tid : Option ℕ) × (rs : List Request) × (create_tid w ctx
          info
        ≡ some (status, ctx', tid, rs))
      × Sound ctx'
      × ((t : ℕ) → has ctx' t ≡ holds (alloc_tid info.tid ∷ rs) t (has ctx t))
      × Outcome ctx info ctx' status tid
unfolding create_tid enter
create_tid-held w ctx info sound fresh f =
    let (created, rs, run, none_held, what) = ummu_mapt_create-Made w ctx.shared_fd info f in
    elim what [
      | inl e ↦ (
        enomem,
        ctx,
        none,
        rs ++ ummu_put_tid ctx.shared_fd info.tid,
        rw (run, e) refl,
        sound,
        undone_held ctx sound info.tid fresh rs none_held,
        inr (refl, refl, refl),
      )
      | inr (m, e, valid, order) ↦ (
        0,
        with ctx sound info.tid fresh m,
        some info.tid,
        rs ++ [],
        rw (run, e, insert_fresh ctx.mapt_map info.tid m fresh) refl,
        with-Sound ctx sound info.tid fresh w m valid order,
        entered_held ctx sound info.tid fresh m rs none_held,
        inl (refl, refl, has-with ctx sound info.tid fresh m info.tid ∙ ground arith),
      )
    ]

answered-Held :
    (w : World) (ctx : CtxInfo) (answer : ℕ × TidInfo)
    → Sound ctx
    → Answers w ctx answer
    → Held ctx (Outcome ctx answer.1) (answered w ctx answer)
unfolding answered holds
answered-Held w ctx (ret, info) sound a = elim (Bool-cases (ret == 0)) [
  | inr n ↦ (ret, ctx, none, [], rw n refl, sound, λ t. refl, inr (n, refl, refl))
  | inl n ↦
      let (status, ctx', tid, rs, run, sound', held, outcome) =
        create_tid-held w ctx info sound (a.fresh n) a.queues in
      (status, ctx', tid, alloc_tid info.tid ∷ rs, rw (n, run) refl, sound', held, outcome)
]

-- In a sound context, with a kernel that answers with a tid nobody has and keeps its queues in order,
-- allocating ends. Either the status is 0, and the map has the tid that the kernel gave, which is
-- stored; or it is an error, nothing is stored, and the context is as before. In both cases the context
-- is sound, and the map has just those tids that the requests leave allocated: after an error the
-- kernel's tid has been given back.
pub ummu_allocate_tid-Held :
    (w : World) (ctx : CtxInfo) (mode : ℕ) (given : Bool)
    → Sound ctx
    → Answers w ctx (w.alloc_tid (record zero_tid_info { mode = mode }))
    → Held ctx
        (Outcome ctx (w.alloc_tid (record zero_tid_info { mode = mode })).1)
        (ummu_allocate_tid w ctx mode given)
unfolding ummu_allocate_tid ummu_get_tid holds
ummu_allocate_tid-Held w ctx mode given sound a =
    let answer = w.alloc_tid (record zero_tid_info { mode = mode }) in
    let asked : ummu_get_tid w ctx.shared_fd (record zero_tid_info { mode = mode }) ≡ answer =
      rw (sound.is_open, ummu_get_tid) refl in
    elim (Bool-cases (ummu_check_input_param mode given == 0)) [
      | inr e ↦ (
        ummu_check_input_param mode given,
        ctx,
        none,
        [],
        rw e refl,
        sound,
        λ t. refl,
        inr (e, refl, refl),
      )
      | inl e ↦
          let (status, ctx', tid, rs, run, sound', held, outcome) =
            answered-Held w ctx answer sound a in
          (status, ctx', tid, rs, rw (e, asked) run, sound', held, outcome)
    ]
