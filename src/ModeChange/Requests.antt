-- ===== src/ModeChange/Requests.antt =====
-- The manager's table of requests: what a call of `request_change`, `emergency_mode_change`,
-- `cancel` or `process` does to each battery's request.
use carma_box_v.Base.{
  ◌≡◌, refl, ◌∙◌, ◌⊎◌, inl, inr, Bool, true, false, List, [], ◌∷◌, Option, none, some, String,
  arith, if◌then◌else◌, str_eq, eq_iff, Bool-cases,
}
use carma_box_v.Base.Int.{ℤ}
use carma_box_v.Base.Floats.{Float, gt}
use carma_box_v.ModeChange.Types.{Port, Request, ChangeConfig}
use carma_box_v.ModeChange.Protocol.{process_request}
use carma_box_v.ModeChange.Table.{
  IsDict, lookup-assign, lookup-assign_other, lookup-append, lookup-append_none, assign-IsDict,
  remove-IsDict,
}
use carma_box_v.ModeChange.Manager.{
  lookup, Manager, is_terminal, is_in_progress, fresh_request, request_change, emergency_request,
  emergency_mode_change, cancel, process_entry, process_all, process,
}

module _ {F : Type 0} ⦃f : Float F⦄ where
  -- A call of request_change while the battery's request is in progress changes nothing and returns
  -- false; any other call returns true and stores the new request, idle and with no retry counted, in
  -- place of what the battery had. The requests of the other batteries stay.
  pub request_change_lem :
      (id mode : String) (limit : ℤ) (fast : Bool) (m : Manager F)
      → let (m', accepted) = request_change id mode limit fast m in
        (is_in_progress id m ≡ true → (m' ≡ m) × (accepted ≡ false))
        × (is_in_progress id m ≡ false
            → (accepted ≡ true)
              × (lookup id m'.requests ≡ some (fresh_request m.config id mode limit fast)))
        × ((i : String) → str_eq i id ≡ false → lookup i m'.requests ≡ lookup i m.requests)
  unfolding request_change
  request_change_lem id mode limit fast m =
      let new = fresh_request m.config id mode limit fast in
      elim (Bool-cases (is_in_progress id m)) [
        | inl e ↦ rw e (λ busy. (refl, refl), λ free. cc, λ i other. refl)
        | inr e ↦ rw e (
          λ busy. cc,
          λ free. (refl, lookup-assign id new m.requests),
          λ i other. lookup-assign_other i id new m.requests other,
        )
      ]

  -- What a call of process leaves of a request, where the hardware was as `d` when its turn came.
  unfoldable pub left_of :
      {D : Type 0} (p : Port D)
      → ChangeConfig F
      → F
      → (String → F)
      → String
      → Request F
      → D
      → Option (Request F)
  left_of p cfg now at id req d =
      if is_terminal req.state
      then if gt (f.sub now req.step_started_at) (f.lit 3600 0) then none else some req
      else some (process_request p cfg (at id) req d).0

  module _ {D : Type 0} (p : Port D) (cfg : ChangeConfig F) (now : F) (at : String → F) where
    lookup-process_entry :
        (id : String) (req : Request F) (d : D)
        → lookup id (process_entry p cfg now at (id, req) d).0 ≡ left_of p cfg now at id req d
    unfolding process_entry left_of lookup
    lookup-process_entry id req d = ground (arith, eq_iff id id)

    lookup-process_entry_other :
        (i id : String) (req : Request F) (d : D)
        → str_eq i id ≡ false
        → lookup i (process_entry p cfg now at (id, req) d).0 ≡ none
    unfolding process_entry lookup
    lookup-process_entry_other i id req d other = ground arith

    lookup-process_all_absent :
        (i : String) (rs : List (String × Request F)) (d : D)
        → lookup i rs ≡ none
        → lookup i (process_all p cfg now at rs d).0 ≡ none
    unfolding process_all lookup
    lookup-process_all_absent i [] d h = refl
    lookup-process_all_absent i ((id, req) ∷ rs) d h =
        let (kept, d1) = process_entry p cfg now at (id, req) d in
        let (rest, d2) = process_all p cfg now at rs d1 in
        let other : str_eq i id ≡ false = ground arith in
        let absent : lookup i rs ≡ none = ground arith in
        lookup-append i kept rest (lookup-process_entry_other i id req d other)
        ∙ lookup-process_all_absent i rs d1 absent

    lookup-process_all :
        (i : String) (req : Request F) (rs : List (String × Request F)) (d : D)
        → IsDict rs
        → lookup i rs ≡ some req
        → (d' : D) × (lookup i (process_all p cfg now at rs d).0 ≡ left_of p cfg now at i req d')
    unfolding process_all lookup
    lookup-process_all i req [] d h stored = absurd (ground arith)
    lookup-process_all i req ((id, r) ∷ rs) d h stored =
        let (kept, d1) = process_entry p cfg now at (id, r) d in
        let (rest, d2) = process_all p cfg now at rs d1 in
        elim (Bool-cases (str_eq i id)) [
          | inl e ↦
              let same : i ≡ id = ground (arith, eq_iff i id) in
              let this : r ≡ req = ground arith in
              let gone : lookup i rest ≡ none = lookup-process_all_absent i rs d1 (rw same h.0) in
              (
                d,
                lookup-append_none i kept rest gone
                    ∙ rw (same, this) (lookup-process_entry id req d),
              )
          | inr e ↦
              let later : lookup i rs ≡ some req = ground arith in
              let (d', found) = lookup-process_all i req rs d1 h.1 later in
              (d', lookup-append i kept rest (lookup-process_entry_other i id r d e) ∙ found)
        ]

    process_entry_cases :
        (id : String) (req : Request F) (d : D)
        → ((process_entry p cfg now at (id, req) d).0 ≡ [])
          ⊎ ((r : Request F) × ((process_entry p cfg now at (id, req) d).0 ≡ (id, r) ∷ []))
    unfolding process_entry
    process_entry_cases id req d = elim (Bool-cases (is_terminal req.state)) [
      | inl e ↦ elim (Bool-cases (gt (f.sub now req.step_started_at) (f.lit 3600 0))) [
        | inl old ↦ inl (rw (e, old) refl)
        | inr new ↦ inr (req, rw (e, new) refl)
      ]
      | inr e ↦ inr ((process_request p cfg (at id) req d).0, rw e refl)
    ]

    process_all-IsDict :
        (rs : List (String × Request F)) (d : D)
        → IsDict rs
        → IsDict (process_all p cfg now at rs d).0
    unfolding process_all
    process_all-IsDict [] d h = tt
    process_all-IsDict ((id, req) ∷ rs) d h =
        let d1 = (process_entry p cfg now at (id, req) d).1 in
        let rest = process_all-IsDict rs d1 h.1 in
        elim (process_entry_cases id req d) [
          | inl e ↦ rw e rest
          | inr k ↦ rw k.1 (lookup-process_all_absent id rs d1 h.0, rest)
        ]

  -- In a call of process on requests whose keys differ every request has one turn, whatever the
  -- others do: it is kept as it is if it is finished, unless its last step began more than an hour
  -- ago, when it is dropped, and if not it takes one step at its own clock reading, on the
  -- hardware as some state d' of it. No battery gains a request.
  pub process_lem :
      {D : Type 0} (p : Port D) (now : F) (at : String → F) (i : String) (m : Manager F) (d : D)
      → IsDict m.requests
      → let m' = (process p now at m d).0 in
        (lookup i m.requests ≡ none → lookup i m'.requests ≡ none)
        × ((req : Request F)
            → lookup i m.requests ≡ some req
            → (d' : D) × (lookup i m'.requests ≡ left_of p m.config now at i req d'))
  unfolding process
  process_lem p now at i m d h = (
    λ absent. lookup-process_all_absent p m.config now at i m.requests d absent,
    λ req stored. lookup-process_all p m.config now at i req m.requests d h stored,
  )

  -- request_change, emergency_mode_change, cancel and process keep the keys of the manager's
  -- requests different from one another.
  pub operations-IsDict :
      {D : Type 0} (p : Port D) (now : F) (at : String → F) (id mode : String) (limit : ℤ)
      (fast : Bool) (m : Manager F) (d : D)
      → IsDict m.requests
      → IsDict (request_change id mode limit fast m).0.requests
        × IsDict (emergency_mode_change id mode fast m).0.requests
        × IsDict (cancel id m).requests
        × IsDict (process p now at m d).0.requests
  unfolding request_change emergency_mode_change cancel process
  operations-IsDict p now at id mode limit fast m d h =
      let new = assign-IsDict id (fresh_request m.config id mode limit fast) m.requests h in
      (
        elim (Bool-cases (is_in_progress id m)) [ inl e ↦ rw e h | inr e ↦ rw e new ],
        assign-IsDict id (emergency_request id mode fast) m.requests h,
        remove-IsDict id m.requests h,
        process_all-IsDict p m.config now at m.requests d h,
      )
