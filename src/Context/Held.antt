-- ===== src/Context/Held.antt =====
-- Which tids the kernel has given out, and which the map has.
use openeuler_ummu.Base.{
  ℕ, ◌≡◌, ◌∙◌, ap, refl, sym, arith, ◌==◌, ◌||◌, if◌then◌else◌, Bool, false, Bool-cases, inl, inr,
  Option, none, some, Option-cases, List, [], ◌∷◌, ◌++◌, einval,
}
use openeuler_ummu.Queue.Plbi.{Request, alloc_tid, put_tid, plbi_va, plbi_all}
use openeuler_ummu.Queue.Plbi.Ends.{Ready, DevicesFit, holds, ummu_queue_destroy-ends}
use openeuler_ummu.TidMap.{hashmap_get, hashmap_del}
use openeuler_ummu.TidMap.Laws.{is_some, get-del}
use openeuler_ummu.Context.{Base, no_base, MaptInfo, CtxInfo, World}
use openeuler_ummu.Context.Create.{ummu_put_tid}
use openeuler_ummu.Context.Tid.{ummu_mapt_destroy, ummu_free_tid, ummu_mapt_table_ctx_uninit_base}

abbrev pub has : CtxInfo → ℕ → Bool
has ctx tid = is_some (hashmap_get ctx.mapt_map tid)

-- The device file is open, and what the map has is in use, with its queues in order.
pub record Sound (ctx : CtxInfo) : Type 0 where
  pub fd : ℕ
  pub is_open : ctx.shared_fd ≡ some fd
  pub valid :
      (tid : ℕ) (m : MaptInfo) → hashmap_get ctx.mapt_map tid ≡ some m → (m.valid == 0) ≡ false
  pub ready : (tid : ℕ) (m : MaptInfo) → hashmap_get ctx.mapt_map tid ≡ some m → Ready m.queue

-- The devices keep within the queues of the tids.
abbrev pub Obeyed : World → CtxInfo → Type 0
Obeyed w ctx =
    (tid : ℕ) (m : MaptInfo) → hashmap_get ctx.mapt_map tid ≡ some m → DevicesFit w.devices m.queue

pub holds-append :
    (rs ss : List Request) (t : ℕ) (held : Bool)
    → holds (rs ++ ss) t held ≡ holds ss t (holds rs t held)
unfolding holds
holds-append [] ss t held = refl
holds-append (alloc_tid u ∷ rs) ss t held = holds-append rs ss t _
holds-append (put_tid u ∷ rs) ss t held = holds-append rs ss t _
holds-append (plbi_va u va size ∷ rs) ss t held = holds-append rs ss t held
holds-append (plbi_all u ∷ rs) ss t held = holds-append rs ss t held

pub put_tid-holds :
    (fd tid t : ℕ) (held : Bool)
    → holds (ummu_put_tid (some fd) tid) t held ≡ (if tid == t then false else held)
unfolding ummu_put_tid holds
put_tid-holds fd tid t held = refl

-- Requests that leave the tids alone, and then the return of a tid.
pub given_back :
    (ctx : CtxInfo) (tid : ℕ)
    → Sound ctx
    → (rs : List Request) → ((t : ℕ) (held : Bool) → holds rs t held ≡ held)
    → (t : ℕ) (held : Bool)
    → holds (rs ++ ummu_put_tid ctx.shared_fd tid) t held ≡ (if tid == t then false else held)
given_back ctx tid sound rs none_held t held =
    holds-append rs (ummu_put_tid ctx.shared_fd tid) t held
    ∙ ap (holds (ummu_put_tid ctx.shared_fd tid) t) (none_held t held)
    ∙ ap (λ (fd : Option ℕ). holds (ummu_put_tid fd tid) t held) sound.is_open
    ∙ put_tid-holds sound.fd tid t held

-- The destruction ends, and gives no tid back by itself.
pub ummu_mapt_destroy-ends :
    (w : World) (fd : Option ℕ) (m : MaptInfo)
    → Ready m.queue
    → DevicesFit w.devices m.queue
    → (left : Base) × (rs : List Request) × (ummu_mapt_destroy w fd m ≡ some (left, rs))
      × ((t : ℕ) (held : Bool) → holds rs t held ≡ held)
unfolding ummu_mapt_destroy holds
ummu_mapt_destroy-ends w fd m ready fits =
    let (q', rs, run, ready', none_held) =
      ummu_queue_destroy-ends w.devices fd m.queue ready fits in
    elim (Bool-cases ((m.mode == 1) || (m.mode == 0))) [
      | inl e ↦ (
        if m.mode == 1 then no_base else ummu_mapt_table_ctx_uninit_base m.block_base,
        rs,
        rw (e, run) refl,
        none_held,
      )
      | inr e ↦ (m.block_base, [], rw e refl, λ t held. refl)
    ]

-- The context without a tid, after requests that leave the tids alone, and the return of that tid.
module _ (ctx : CtxInfo) (tid : ℕ) (sound : Sound ctx) where
  abbrev pub without : CtxInfo
  without = record ctx { mapt_map = (hashmap_del ctx.mapt_map tid).0 }

  has-without : (t : ℕ) → has without t ≡ (if tid == t then false else has ctx t)
  has-without t = elim (Bool-cases (tid == t)) [
    | inl e ↦ ap is_some (get-del ctx.mapt_map tid t) ∙ rw e refl
    | inr e ↦ ap is_some (get-del ctx.mapt_map tid t) ∙ rw e refl
  ]

  kept :
      (t : ℕ) (m : MaptInfo)
      → hashmap_get without.mapt_map t ≡ some m
      → hashmap_get ctx.mapt_map t ≡ some m
  kept t m h = elim (Bool-cases (tid == t)) [
    | inl e ↦
        let gone : hashmap_get without.mapt_map t ≡ none = get-del ctx.mapt_map tid t ∙ rw e refl in
        cc
    | inr e ↦
        let same : hashmap_get without.mapt_map t ≡ hashmap_get ctx.mapt_map t =
          get-del ctx.mapt_map tid t ∙ rw e refl in
        sym same ∙ h
  ]

  without-Sound : Sound without
  without-Sound = record {
    fd = sound.fd;
    is_open = sound.is_open;
    valid = λ t m h. sound.valid t m (kept t m h);
    ready = λ t m h. sound.ready t m (kept t m h);
  }

  without-held :
      (rs : List Request)
      → ((t : ℕ) (held : Bool) → holds rs t held ≡ held)
      → (t : ℕ) → has without t ≡ holds (rs ++ ummu_put_tid ctx.shared_fd tid) t (has ctx t)
  without-held rs none_held t =
      has-without t ∙ sym (given_back ctx tid sound rs none_held t (has ctx t))

-- In a sound context, with devices that keep within their queues, freeing a tid ends. If the map has the
-- tid, the status is 0, the context is as before but for the tid, which is out of the map, and the requests
-- are some that allocate and free no tid, and then the one that gives the tid back. Otherwise the status
-- is -EINVAL, the context is as before, and no request is made. In both cases the map does not have the
-- tid afterwards, the context is sound, and the map has just those tids that the requests leave allocated.
pub ummu_free_tid-held :
    (w : World) (ctx : CtxInfo) (tid : ℕ) (sound : Sound ctx)
    → Obeyed w ctx
    → (ctx' : CtxInfo) × (rs : List Request) × (ummu_free_tid w ctx tid
        ≡ some (if has ctx tid then 0 else einval, ctx', none, rs))
      × (has ctx' tid ≡ false)
      × Sound ctx'
      × ((t : ℕ) → has ctx' t ≡ holds rs t (has ctx t))
      × (ctx' ≡ (if has ctx tid then without ctx tid sound else ctx))
      × ((destroy : List Request) × ((t : ℕ) (held : Bool) → holds destroy t held ≡ held)
          × (rs ≡ (if has ctx tid then destroy ++ ummu_put_tid ctx.shared_fd tid else [])))
unfolding ummu_free_tid holds
ummu_free_tid-held w ctx tid sound obeyed = elim (Option-cases (hashmap_get ctx.mapt_map tid)) [
  | inl e ↦ (
    ctx,
    [],
    rw (ummu_free_tid, e) refl,
    rw e refl,
    sound,
    λ t. refl,
    rw e refl,
    ([], λ t held. refl, rw e refl),
  )
  | inr (m, e) ↦
      let (left, rs, run, none_held) =
        ummu_mapt_destroy-ends w ctx.shared_fd m (sound.ready tid m e) (obeyed tid m e) in
      (
        without ctx tid sound,
        rs ++ ummu_put_tid ctx.shared_fd tid,
        rw (ummu_free_tid, e, sound.valid tid m e, run) refl,
        has-without ctx tid sound tid ∙ ground arith,
        without-Sound ctx tid sound,
        λ t. without-held ctx tid sound rs none_held t,
        rw e refl,
        (rs, none_held, rw e refl),
      )
]
