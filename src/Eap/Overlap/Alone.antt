-- ===== src/Eap/Overlap/Alone.antt =====
-- The turns of a handler that no other overlaps make `handleTLSHandshake` of cmd/server/main.go as a whole.
use fakeradius.Base.{
  ℕ, zero, suc, ◌+◌, ◌≤◌, ◌<◌, ◌≡◌, refl, sym, arith, Bool, true, false, ◌||◌, [], ◌∷◌, ◌++◌,
  Option, none, some, length, take, drop, ltb, ◌==◌, if◌then◌else◌, ok, ◌>>=◌, Bool-cases, inl, inr,
  ◌∙◌, ap, ok-injective,
}
use fakeradius.Base.Bytes.{Bytes, u8, u32, put_u32}
use fakeradius.Eap.Overlap.{
  Handler, feeding, checking, starting, entering, waiting, looking, reading, flagging, raising,
  draining, leaving, settling, clearing, judging, returned, turn, fragment_packet, rest_packet,
}
use fakeradius.Eap.Phases.{receive-fed, receive-new}
use fakeradius.Eap.Encoded.{eap_packet, build_eap_packet_lem}
use fakeradius.Eap.Tls.Flight.{
  waited, after_fragment, after_last, fragment_data, length-fragment_data, last_packet, silent,
  fragment, last, tls_case,
}
use fakeradius.Eap.Session.{Session}
use fakeradius.Eap.Tls.{Activity, tls_activity, await_output, handle_tls_handshake}
use fakeradius.Eap.{build_eap_packet}
use mathlib.Core.Path.{subst}

-- The goroutine acts while the handler sleeps, which it does where it has polled and found no output.
abbrev pub asleep : (ℕ → Activity) → Handler → Session → Session
asleep engine (waiting (suc polls) eap_id) s =
    if length s.tls_out == 0 then tls_activity (engine polls) s else s
asleep engine h s = s

-- The turns of a handler alone, up to a session and what the handler has become.
pub data Runs (engine : ℕ → Activity) (t : Session) (end : Handler)
    : Handler → Session → Type 0 where
  done : Runs engine t end end t
  next :
      (h h' : Handler) (s s' : Session)
      → turn h s ≡ (s', h')
      → Runs engine t end h' (asleep engine h s')
      → Runs engine t end h s

module _ (engine : ℕ → Activity) (t : Session) (end : Handler) (eap_id : ℕ) where
  await-Runs :
      (polls : ℕ) (s : Session)
      → Runs engine t end (looking eap_id) (await_output polls engine s)
      → Runs engine t end (waiting polls eap_id) s
  unfolding turn
  await-Runs zero s k = next (waiting zero eap_id) (looking eap_id) s s refl k
  await-Runs (suc polls) s k =
      by_output s.tls_out refl (await-Runs polls (tls_activity (engine polls) s))
    where
      by_output :
          (out : Bytes)
          → s.tls_out ≡ out
          → (Runs engine t end
                (looking eap_id)
                (await_output polls engine (tls_activity (engine polls) s))
              → Runs engine t end (waiting polls eap_id) (tls_activity (engine polls) s))
          → Runs engine t end (waiting (suc polls) eap_id) s
      by_output [] e further =
          let later : await_output (suc polls) engine s
              ≡ await_output polls engine (tls_activity (engine polls) s) =
            rw e refl in
          let slept : tls_activity (engine polls) s ≡ asleep engine (waiting (suc polls) eap_id) s =
            rw e refl in
          next (waiting (suc polls) eap_id) (waiting polls eap_id) s s (rw e refl) (
            subst (Runs engine t end (waiting polls eap_id)) slept
              (further (subst (Runs engine t end (looking eap_id)) later k)))
      by_output (b ∷ out) e further =
          let some_output : (length s.tls_out == 0) ≡ false = rw e (ground arith) in
          let now : await_output (suc polls) engine s ≡ s = rw e refl in
          let awake : s ≡ asleep engine (waiting (suc polls) eap_id) s = rw some_output refl in
          next (waiting (suc polls) eap_id) (looking eap_id) s s (rw some_output refl)
            (subst (Runs engine t end (looking eap_id)) (now ∙ awake) k)

  receive-Runs :
      (s : Session) (tls_data : Bytes)
      → Runs engine t end (looking eap_id) (waited engine s tls_data)
      → Runs engine t end (feeding tls_data eap_id) s
  unfolding turn
  receive-Runs s tls_data k =
      let fed : Session = record s { tls_in = s.tls_in ++ tls_data } in
      next (feeding tls_data eap_id) (checking eap_id) s fed refl (elim (Bool-cases s.tls_started) [
        | inl on ↦ next (checking eap_id) (waiting 400 eap_id) fed fed (rw on refl) (
            await-Runs 400 fed (
              subst (λ z. Runs engine t end (looking eap_id) (await_output 400 engine z))
                (sym (receive-fed s tls_data on)) k))
        | inr off ↦ next (checking eap_id) (starting eap_id) fed fed (rw off refl) (
            next (starting eap_id) (entering eap_id) fed (record fed { tls_started = true }) refl
              (next (entering eap_id) (waiting 400 eap_id) (record fed { tls_started = true })
                (record fed { tls_started = true; state = 2 }) refl
                (await-Runs 400 (record fed { tls_started = true; state = 2 })
                  (subst (λ z. Runs engine t end (looking eap_id) (await_output 400 engine z))
                    (sym (receive-new s tls_data off)) k))))
      ])

module _ (engine : ℕ → Activity) (eap_id : ℕ) (w : Session) where
  silent-Runs : w.tls_out ≡ [] → Runs engine w (returned (ok none)) (looking eap_id) w
  unfolding turn
  silent-Runs e = next (looking eap_id) (returned (ok none)) w w (rw e refl) done

  looks :
      (t : Session) (end : Handler)
      → 1 ≤ length w.tls_out
      → Runs engine t end (reading eap_id) w
      → Runs engine t end (looking eap_id) w
  unfolding turn
  looks t end h k =
      let e : (length w.tls_out == 0) ≡ false = ground arith in
      next (looking eap_id) (reading eap_id) w w (rw e refl) k

  abbrev cut_packet : Option Bytes
  cut_packet = some (eap_packet 1 (u8 (eap_id + 1)) 21 (fragment_data w))

  -- The last turn with a fragment.
  drained :
      (first : Bool) (s : Session)
      → record s { tls_out = drop 1000 w.tls_out } ≡ after_fragment w
      → (if first
          then 192 ∷ (put_u32 (u32 (length w.tls_out)) ++ take 1000 w.tls_out)
          else 64 ∷ take 1000 w.tls_out)
        ≡ fragment_data w
      → ◌≡◌ {A = Session × Handler}
          (
            record s { tls_out = drop 1000 w.tls_out },
            returned (fragment_packet first w.tls_out eap_id),
          )
          (after_fragment w, returned (ok cut_packet))
  drained first s e d =
      let built =
        build_eap_packet_lem 1 (u8 (eap_id + 1)) 21 (fragment_data w) refl
          (omega (arith, length-fragment_data w)) in
      let sent : fragment_packet first w.tls_out eap_id ≡ ok cut_packet =
        ap (λ p. (do packet ← build_eap_packet 1 (u8 (eap_id + 1)) 21 p; ok (some packet))) d
        ∙ rw built refl in
      ap (λ z. (z, returned (fragment_packet first w.tls_out eap_id))) e
      ∙ ap (λ r. (after_fragment w, returned r)) sent

  fragment-Runs :
      1000 < length w.tls_out
      → Runs engine (after_fragment w) (returned (ok cut_packet)) (reading eap_id) w
  unfolding turn
  fragment-Runs h =
      let e : ltb 1000 (length w.tls_out) ≡ true = ground arith in
      next (reading eap_id) (flagging w.tls_out eap_id) w w (rw e refl)
        (elim (Bool-cases (w.state == 2)) [
          | inl f ↦ next (flagging w.tls_out eap_id) (raising w.tls_out eap_id) w w (rw f refl) (
              next (raising w.tls_out eap_id) (draining true w.tls_out eap_id) w
                (record w { state = 21 }) refl
                (next (draining true w.tls_out eap_id) (returned (ok cut_packet))
                  (record w { state = 21 }) (after_fragment w)
                  (drained true (record w { state = 21 }) (rw f refl) (rw f refl)) done))
          | inr f ↦
              next (flagging w.tls_out eap_id) (draining false w.tls_out eap_id) w w (rw f refl) (
                next (draining false w.tls_out eap_id) (returned (ok cut_packet)) w
                  (after_fragment w) (drained false w (rw f refl) (rw f refl)) done)
        ])

  abbrev rest : Option Bytes
  rest = some (last_packet w eap_id)

  rest_lem : length w.tls_out ≤ 1000 → rest_packet w.authenticated w.tls_out eap_id ≡ ok rest
  unfolding build_eap_packet
  rest_lem h = elim (Bool-cases w.authenticated) [
    | inl e ↦ rw e refl
    | inr e ↦
        rw (e, build_eap_packet_lem 1 (u8 (eap_id + 1)) 21 (0 ∷ w.tls_out) refl (omega arith)) refl
  ]

  -- The last two turns, from a session in the state that is the last.
  cleared :
      (s : Session)
      → length w.tls_out ≤ 1000
      → record s { tls_out = [] } ≡ after_last w
      → Runs engine (after_last w) (returned (ok rest)) (clearing w.tls_out eap_id) s
  unfolding turn
  cleared s h e =
      next (clearing w.tls_out eap_id) (judging w.tls_out eap_id) s (after_last w)
        (ap (λ z. (z, judging w.tls_out eap_id)) e)
        (next (judging w.tls_out eap_id) (returned (ok rest)) (after_last w) (after_last w)
          (ap (λ r. (after_last w, returned r)) (rest_lem h)) done)

  last-Runs :
      length w.tls_out ≤ 1000 → Runs engine (after_last w) (returned (ok rest)) (reading eap_id) w
  unfolding turn
  last-Runs h =
      let e : ltb 1000 (length w.tls_out) ≡ false = ground arith in
      next (reading eap_id) (leaving w.tls_out eap_id) w w (rw e refl)
        (elim (Bool-cases (w.state == 2 || w.state == 21)) [
          | inl f ↦ next (leaving w.tls_out eap_id) (settling w.tls_out eap_id) w w (rw f refl) (
              next (settling w.tls_out eap_id) (clearing w.tls_out eap_id) w
                (record w { state = 3 }) refl (cleared (record w { state = 3 }) h (rw f refl)))
          | inr f ↦
              next (leaving w.tls_out eap_id) (clearing w.tls_out eap_id) w w (rw f refl)
                (cleared w h (rw f refl))
        ])

-- A handler that no other of its address overlaps comes by its turns to the session and the packet that
-- `handle_tls_handshake` returns, whatever the goroutine does in the pauses.
pub turn-handle_tls_handshake :
    (engine : ℕ → Activity) (s t : Session) (tls_data : Bytes) (eap_id : ℕ) (sent : Option Bytes)
    → handle_tls_handshake engine s tls_data eap_id ≡ ok (t, sent)
    → Runs engine t (returned (ok sent)) (feeding tls_data eap_id) s
turn-handle_tls_handshake engine s t tls_data eap_id sent r =
    let w = waited engine s tls_data in
    elim (tls_case engine s tls_data eap_id) [
      | silent e k ↦ same_end k (
          receive-Runs engine w (returned (ok none)) eap_id s tls_data
            (silent-Runs engine eap_id w e))
      | fragment e k ↦ same_end k (
          receive-Runs engine (after_fragment w) (returned (ok (cut_packet engine eap_id w))) eap_id
            s tls_data
            (looks engine eap_id w (after_fragment w) (returned (ok (cut_packet engine eap_id w)))
              (omega arith) (fragment-Runs engine eap_id w e)))
      | last e f k ↦ same_end k (
          receive-Runs engine (after_last w) (returned (ok (rest engine eap_id w))) eap_id s
            tls_data
            (looks engine eap_id w (after_last w) (returned (ok (rest engine eap_id w))) e
              (last-Runs engine eap_id w f)))
    ]
  where
    same_end :
        {t' : Session} {sent' : Option Bytes}
        → handle_tls_handshake engine s tls_data eap_id ≡ ok (t', sent')
        → Runs engine t' (returned (ok sent')) (feeding tls_data eap_id) s
        → Runs engine t (returned (ok sent)) (feeding tls_data eap_id) s
    same_end k runs =
        subst
          (λ (x : Session × Option Bytes).
            Runs engine x.0 (returned (ok x.1)) (feeding tls_data eap_id) s)
          (ok-injective (sym k ∙ r)) runs
