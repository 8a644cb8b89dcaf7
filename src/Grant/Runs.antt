-- ===== src/Grant/Runs.antt =====
-- Sequences of calls of the API.
use openeuler_ummu.Base.{
  ℕ, ◌+◌, einval, enomem, wsub, ◌≡◌, ◌∙◌, ap, refl, sym, ◌==◌, ◌||◌, ◌&&◌, not, if◌then◌else◌, Bool,
  Bool-cases, inl, inr, Option, none, some, Option-cases, List, [], ◌++◌, After, After-some,
  After-bind,
}
use mathlib.Core.Path.{subst}
use mathlib.Core.Option.{none-ne-some}
use openeuler_ummu.Check.{GrantArgs, ummu_check_mode, ummu_check_data, ummu_perm_data_preproc}
use openeuler_ummu.Mapt.{DataInfo, align_vpage_shift_check}
use openeuler_ummu.Token.{TokenInfo}
use openeuler_ummu.Queue.Plbi.{zero_tid_info, Request}
use openeuler_ummu.Queue.Plbi.Ends.{Ready, holds}
use openeuler_ummu.TidMap.{hashmap_get}
use openeuler_ummu.TidMap.Laws.{get-write, found-write}
use openeuler_ummu.Context.{MaptInfo, CtxInfo, World}
use openeuler_ummu.Context.Tid.{ummu_allocate_tid, ummu_free_tid}
use openeuler_ummu.Context.Held.{has, Sound, Obeyed, holds-append, ummu_free_tid-held}
use openeuler_ummu.Context.Tids.{Answers, ummu_allocate_tid-Held}
use openeuler_ummu.Grant.{get_mapt_info_by_tid}
use openeuler_ummu.Grant.Call.{
  Reply, refused, done, grant_checked, ungrant_checked, ummu_grant, ummu_ungrant_data,
}
use openeuler_ummu.Grant.Keeps.{Safe, grant_checked-Safe, ungrant_checked-Safe}

get_mapt-found :
    (ctx : CtxInfo) (tid : ℕ) (m : MaptInfo)
    → get_mapt_info_by_tid ctx tid ≡ some m
    → hashmap_get ctx.mapt_map tid ≡ some m
unfolding get_mapt_info_by_tid
get_mapt-found ctx tid m h = elim (Option-cases (hashmap_get ctx.mapt_map tid)) [
  | inl e ↦ absurd (none-ne-some m (sym (rw (get_mapt_info_by_tid, e) refl) ∙ h))
  | inr (x, e) ↦ elim (Bool-cases ((x.valid == 0) || not (ummu_check_mode x.mode == 0))) [
    | inl b ↦ absurd (none-ne-some m (sym (rw (get_mapt_info_by_tid, e, b) refl) ∙ h))
    | inr b ↦ e ∙ (sym (rw (get_mapt_info_by_tid, e, b) refl) ∙ h)
  ]
]

-- The context is sound, and the map has just the tids that the requests leave allocated.
abbrev pub Kept : CtxInfo → List Request → CtxInfo → Type 0
Kept ctx rs ctx' = Sound ctx' × ((t : ℕ) → has ctx' t ≡ holds rs t (has ctx t))

module _ (w : World) (ctx : CtxInfo) (sound : Sound ctx) (obeyed : Obeyed w ctx) where
  abbrev Replied : Reply → Type 0
  Replied reply = Kept ctx reply.requests reply.ctx

  unchanged : (status : ℕ) (token : Option TokenInfo) → Replied (refused status ctx token)
  unfolding holds
  unchanged status token = (sound, λ t. refl)

  written :
      (tid : ℕ) (m : MaptInfo) (e : hashmap_get ctx.mapt_map tid ≡ some m)
      (token : Option TokenInfo) (r : ℕ × MaptInfo × List Request)
      → Safe w ctx.shared_fd m (sound.ready tid m e) (obeyed tid m e) r
      → Replied (done ctx tid token r)
  written tid m e token (ret, m', rs) (valid, ready, held) = (
    record {
      fd = sound.fd;
      is_open = sound.is_open;
      valid = λ t x h. elim (found-write ctx.mapt_map tid m' t x h) [
        | inl s ↦
            ap (λ (y : MaptInfo). y.valid == 0) (sym s)
            ∙ ap (λ (n : ℕ). n == 0) valid
            ∙ sound.valid tid m e
        | inr g ↦ sound.valid t x g
      ];
      ready = λ t x h. elim (found-write ctx.mapt_map tid m' t x h) [
        | inl s ↦ subst (λ (y : MaptInfo). Ready y.queue) s ready
        | inr g ↦ sound.ready t x g
      ];
    },
    λ t. get-write ctx.mapt_map tid m' t ∙ sym (held t (has ctx t)),
  )

  ummu_grant-Kept : (old tid : ℕ) (args : GrantArgs) → After (ummu_grant w old ctx tid args) Replied
  unfolding ummu_grant
  ummu_grant-Kept old tid args = elim (Option-cases (get_mapt_info_by_tid ctx tid)) [
    | inl n ↦ rw (ummu_grant, n) (unchanged einval args.token)
    | inr (m, g) ↦
        let e = get_mapt-found ctx tid m g in
        let prepared = ummu_perm_data_preproc w.urandom old args in
        elim (Bool-cases (ummu_check_data args m.mode == 0)) [
          | inr c ↦ rw (ummu_grant, g, c) (unchanged einval args.token)
          | inl c ↦ elim (Bool-cases (prepared.1 == 0)) [
            | inr p ↦ rw (ummu_grant, g, c, p) (unchanged einval prepared.2)
            | inl p ↦
                rw (ummu_grant, g, c, p)
                  (After-bind (grant_checked w ctx.shared_fd m prepared.0) _
                    (Safe w ctx.shared_fd m (sound.ready tid m e) (obeyed tid m e)) Replied
                    (grant_checked-Safe w ctx.shared_fd m (sound.ready tid m e) (obeyed tid m e)
                      prepared.0)
                    (λ r safe. written tid m e prepared.2 r safe))
          ]
        ]
  ]

  ummu_ungrant_data-Kept :
      (local : DataInfo) (tid address size tokenval bytoken : ℕ)
      → After (ummu_ungrant_data w local ctx tid address size tokenval bytoken) Replied
  unfolding ummu_ungrant_data
  ummu_ungrant_data-Kept local tid address size tokenval bytoken =
      elim (Option-cases (get_mapt_info_by_tid ctx tid)) [
        | inl n ↦ rw (ummu_ungrant_data, n) (unchanged (if size == 0 then enomem else einval) none)
        | inr (m, g) ↦
            let e = get_mapt-found ctx tid m g in
            let d : DataInfo = record local {
              lvl = 3;
              data_size = size;
              tokenval = tokenval;
              bytoken = bytoken;
              data_base = address;
              data_limit = wsub 64 (address + size) 1;
            } in
            elim (Bool-cases (size == 0)) [
              | inl z ↦ rw (ummu_ungrant_data, g, z) (unchanged enomem none)
              | inr z ↦ elim (Bool-cases ((m.mode == 0) && not (align_vpage_shift_check address))) [
                | inl a ↦ rw (ummu_ungrant_data, g, z, a) (unchanged einval none)
                | inr a ↦
                    rw (ummu_ungrant_data, g, z, a)
                      (After-bind (ungrant_checked w ctx.shared_fd m d) _
                        (Safe w ctx.shared_fd m (sound.ready tid m e) (obeyed tid m e)) Replied
                        (ungrant_checked-Safe w ctx.shared_fd m (sound.ready tid m e)
                          (obeyed tid m e) d)
                        (λ r safe. written tid m e none r safe))
              ]
            ]
      ]

-- One call, with the requests that it makes. `Obeyed` and `Answers` are what the devices and the
-- kernel keep to.
pub data Step : CtxInfo → List Request → CtxInfo → Type 0 where
  allocate :
      (w : World) (ctx : CtxInfo) (mode : ℕ) (given : Bool) (status : ℕ) (tid : Option ℕ)
      (rs : List Request) (ctx' : CtxInfo)
      → Answers w ctx (w.alloc_tid (record zero_tid_info { mode = mode }))
      → ummu_allocate_tid w ctx mode given ≡ some (status, ctx', tid, rs)
      → Step ctx rs ctx'
  free :
      (w : World) (ctx : CtxInfo) (tid status : ℕ) (stored : Option ℕ) (rs : List Request)
      (ctx' : CtxInfo)
      → Obeyed w ctx
      → ummu_free_tid w ctx tid ≡ some (status, ctx', stored, rs)
      → Step ctx rs ctx'
  grant :
      (w : World) (ctx : CtxInfo) (old tid : ℕ) (args : GrantArgs) (reply : Reply)
      → Obeyed w ctx
      → ummu_grant w old ctx tid args ≡ some reply
      → Step ctx reply.requests reply.ctx
  ungrant :
      (w : World) (ctx : CtxInfo) (local : DataInfo) (tid address size tokenval bytoken : ℕ)
      (reply : Reply)
      → Obeyed w ctx
      → ummu_ungrant_data w local ctx tid address size tokenval bytoken ≡ some reply
      → Step ctx reply.requests reply.ctx

pub data Run : CtxInfo → List Request → CtxInfo → Type 0 where
  stay : (ctx : CtxInfo) → Run ctx [] ctx
  call :
      (ctx : CtxInfo) (rs : List Request) (ctx' : CtxInfo) (ss : List Request) (ctx'' : CtxInfo)
      → Run ctx rs ctx'
      → Step ctx' ss ctx''
      → Run ctx (rs ++ ss) ctx''

Step-Kept :
    (ctx : CtxInfo) (rs : List Request) (ctx' : CtxInfo)
    → Sound ctx
    → Step ctx rs ctx'
    → Kept ctx rs ctx'
Step-Kept _ _ _ sound (allocate w ctx mode given status tid rs ctx' answers run) =
    let (s, c, t, r, eq, sound', held, outcome) =
      ummu_allocate_tid-Held w ctx mode given sound answers in
    After-some (ummu_allocate_tid w ctx mode given)
      (λ (x : ℕ × CtxInfo × Option ℕ × List Request). Kept ctx x.3 x.1) _ (rw eq (sound', held)) run
Step-Kept _ _ _ sound (free w ctx tid status stored rs ctx' obeyed run) =
    let (c, r, eq, gone, sound', held, _, _) = ummu_free_tid-held w ctx tid sound obeyed in
    After-some (ummu_free_tid w ctx tid)
      (λ (x : ℕ × CtxInfo × Option ℕ × List Request). Kept ctx x.3 x.1) _ (rw eq (sound', held)) run
Step-Kept _ _ _ sound (grant w ctx old tid args reply obeyed run) =
    After-some (ummu_grant w old ctx tid args) _ reply
      (ummu_grant-Kept w ctx sound obeyed old tid args) run
Step-Kept _ _ _ sound (ungrant w ctx local tid address size tokenval bytoken reply obeyed run) =
    After-some (ummu_ungrant_data w local ctx tid address size tokenval bytoken) _ reply
      (ummu_ungrant_data-Kept w ctx sound obeyed local tid address size tokenval bytoken) run

-- After any sequence of calls that return, from a sound context on, with devices that keep within their
-- queues and a kernel that answers with tids nobody has, the context is sound, and the map has a tid
-- exactly if the requests made since leave it allocated (a tid that no request names: if the map had
-- it before).
pub Run-Kept :
    (ctx : CtxInfo) (rs : List Request) (ctx' : CtxInfo)
    → Sound ctx
    → Run ctx rs ctx'
    → Kept ctx rs ctx'
unfolding holds
Run-Kept _ _ _ sound (stay ctx) = (sound, λ t. refl)
Run-Kept _ _ _ sound (call ctx rs ctx' ss ctx'' run step) =
    let (sound', held) = Run-Kept ctx rs ctx' sound run in
    let (sound'', held') = Step-Kept ctx' ss ctx'' sound' step in
    (sound'', λ t. held' t ∙ ap (holds ss t) (held t) ∙ sym (holds-append rs ss t (has ctx t)))
