-- ===== src/Tls/Handshake/Agreement.antt =====
-- The two ends of a handshake (src/tls/handshake.rs) hold the same keys.
use iso_light_k.Common.{
  ℕ, ◌≡◌, refl, sym, ap, ◌∙◌, List, Result, ok, err, arith, Bool-cases, inl, inr,
}
use iso_light_k.Primitives.{Random}
use iso_light_k.Tls.{KexPolicy, CipherSuite, TlsError, TlsConnection, connected}
use iso_light_k.Tls.KeySchedule.{
  HsmDriver, empty_secrets, derive_early_secrets, ct_eq_bytes, derive_traffic_keys, ◌>>=◌,
}
use iso_light_k.Tls.Handshake.{
  Kex, View, Views, both, with_secrets, require_equal, open_psk, bind_hello, hear_server, finish,
  finish_both, install, install_both, conclude, fresh_view,
}
use iso_light_k.Tls.Handshake.Action.{KemKeys, exchange_hellos, do_handshake, bind, Action}

-- What the end of a handshake has established.
pub record Agrees (ends : TlsConnection × TlsConnection) : Type 0 where
  pub client_connected : ends.0.state ≡ connected
  pub server_connected : ends.1.state ≡ connected
  pub to_server : ends.0.app_write ≡ ends.1.app_read
  pub to_client : ends.1.app_write ≡ ends.0.app_read
  pub write_fresh : ends.0.app_write.seq ≡ 0
  pub read_fresh : ends.0.app_read.seq ≡ 0
  pub transcripts : ends.0.transcript ≡ ends.1.transcript

bind_result-inv {ℓ κ} :
    {A : Type ℓ} {B : Type κ} (m : Result TlsError A) (f : A → Result TlsError B) (b : B)
    → (m >>= f) ≡ ok b
    → (a : A) × (m ≡ ok a) × (f a ≡ ok b)
unfolding ◌>>=◌
bind_result-inv (ok a) f b h = (a, refl, h)
bind_result-inv (err e) f b h = absurd (ground arith)

both-same :
    (f : View → Result TlsError View) (v v' : Views) → v.0 ≡ v.1 → both f v ≡ ok v' → v'.0 ≡ v'.1
unfolding both
both-same f v v' same h =
    let (c, c_is, rest) = bind_result-inv _ _ v' h in
    let (s, s_is, ends) = bind_result-inv _ _ v' rest in
    let e : ok c ≡ ok s = sym c_is ∙ (ap f same ∙ s_is) in cc

require_equal-inv {ℓ} :
    {A : Type ℓ} (a b : List ℕ) (r : Result TlsError A) (x : A)
    → require_equal a b r ≡ ok x
    → r ≡ ok x
unfolding require_equal
require_equal-inv a b r x h = elim (Bool-cases (ct_eq_bytes a b)) [
  | inl y ↦ rw (y, require_equal) at h
  | inr n ↦ absurd (ground arith)
]

module _ (sha256 : List ℕ → List ℕ) where
  open_psk-same :
      (hsm : HsmDriver) (psk_id : List ℕ) (v v' : Views)
      → v.0 ≡ v.1
      → open_psk sha256 hsm psk_id v ≡ ok v'
      → v'.0 ≡ v'.1
  unfolding open_psk
  open_psk-same hsm psk_id v v' same h = elim (Bool-cases (hsm.psk_exists psk_id)) [
    | inl y ↦
        both-same (λ w. with_secrets (derive_early_secrets sha256 hsm psk_id w.secrets) w) v v' same
          (rw (y, open_psk) at h)
    | inr n ↦ absurd (ground arith)
  ]

  bind_hello-same :
      (truncated : List ℕ) (v v' : Views)
      → v.0 ≡ v.1
      → bind_hello sha256 truncated v ≡ ok v'
      → v'.0 ≡ v'.1
  unfolding bind_hello
  bind_hello-same truncated v v' same h =
      let (t, _, h1) = bind_result-inv _ _ v' h in
      let (binder, _, h2) = bind_result-inv _ _ v' h1 in
      let (expected, _, h3) = bind_result-inv _ _ v' h2 in
      both-same _ v v' same (require_equal-inv binder expected _ v' h3)

  hear_server-same :
      (sh ecdhe_ss : List ℕ) (policy : KexPolicy) (v : Views) (x : Views × List ℕ)
      → v.0 ≡ v.1
      → hear_server sha256 sh ecdhe_ss policy v ≡ ok x
      → x.0.0 ≡ x.0.1
  unfolding hear_server
  hear_server-same sh ecdhe_ss policy v x same h =
      let (v', heard_it, h1) = bind_result-inv _ _ x h in
      let (v'', derived, h2) = bind_result-inv _ _ x h1 in
      let e : v''.0 ≡ v''.1 = both-same _ v' v'' (both-same _ v v' same heard_it) derived in cc

  finish-same :
      (traffic : View → List ℕ) (hash : List ℕ) (sender receiver : View) (v v' : Views)
      → v.0 ≡ v.1
      → finish sha256 traffic hash sender receiver v ≡ ok v'
      → v'.0 ≡ v'.1
  unfolding finish
  finish-same traffic hash sender receiver v v' same h =
      let (key, _, h1) = bind_result-inv _ _ v' h in
      let (header, _, h2) = bind_result-inv _ _ v' h1 in
      let (view_key, _, h3) = bind_result-inv _ _ v' h2 in
      both-same _ v v' same (require_equal-inv _ _ _ v' h3)

  finish_both-same :
      (v v' : Views) (hash : List ℕ)
      → v.0 ≡ v.1
      → finish_both sha256 (v, hash) ≡ ok v'
      → v'.0 ≡ v'.1
  unfolding finish_both
  finish_both-same v v' hash same h =
      let (a, a_is, h1) = bind_result-inv _ _ v' h in
      let (b, b_is, h2) = bind_result-inv _ _ v' h1 in
      both-same _ b v' (finish-same _ _ _ _ a b (finish-same _ _ _ _ v a same a_is) b_is) h2

  -- What an installation leaves.
  install-inv :
      (conn conn' : TlsConnection) (transcript write_secret read_secret : List ℕ)
      → install sha256 conn transcript write_secret read_secret ≡ ok conn'
      → (w : List ℕ × List ℕ) × (r : List ℕ × List ℕ) × (derive_traffic_keys sha256 write_secret
          ≡ ok w)
        × (derive_traffic_keys sha256 read_secret ≡ ok r)
        × (record conn {
          transcript = transcript;
          app_write = record { key = w.0; iv = w.1; seq = 0 };
          app_read = record { key = r.0; iv = r.1; seq = 0 };
          state = connected;
        }
            ≡ conn')
  unfolding install
  install-inv conn conn' transcript write_secret read_secret h =
      let (w, w_is, h1) = bind_result-inv _ _ conn' h in
      let (r, r_is, h2) = bind_result-inv _ _ conn' h1 in (w, r, w_is, r_is, cc)

  install_both-Agrees :
      (conns ends : TlsConnection × TlsConnection) (v : Views)
      → v.0 ≡ v.1
      → install_both sha256 conns v ≡ ok ends
      → Agrees ends
  unfolding install_both
  install_both-Agrees conns ends v same h =
      let (c, c_is, h1) = bind_result-inv _ _ ends h in
      let (s, s_is, h2) = bind_result-inv _ _ ends h1 in
      let (w, r, w_is, r_is, c_made) =
        install-inv conns.0 c v.0.transcript v.0.secrets.client_application_traffic_0
          v.0.secrets.server_application_traffic_0 c_is in
      let (w', r', w'_is, r'_is, s_made) =
        install-inv conns.1 s v.1.transcript v.1.secrets.server_application_traffic_0
          v.1.secrets.client_application_traffic_0 s_is in
      let e : ok w ≡ ok r' =
        sym w_is
        ∙ (ap (λ (u : View). derive_traffic_keys sha256 u.secrets.client_application_traffic_0) same
            ∙ r'_is) in
      let e' : ok w' ≡ ok r =
        sym w'_is
        ∙ (ap (λ (u : View). derive_traffic_keys sha256 u.secrets.server_application_traffic_0)
              (sym same)
            ∙ r_is) in
      let wr : w ≡ r' = cc in
      let rw' : w' ≡ r = cc in
      let client_is : c ≡ ends.0 = cc in
      let server_is : s ≡ ends.1 = cc in
      let t : v.0.transcript ≡ v.1.transcript = ap (λ (u : View). u.transcript) same in
      record {
        client_connected = ap (λ (x : TlsConnection). x.state) (sym (c_made ∙ client_is));
        server_connected = ap (λ (x : TlsConnection). x.state) (sym (s_made ∙ server_is));
        to_server = cc;
        to_client = cc;
        write_fresh = ap (λ (x : TlsConnection). x.app_write.seq) (sym (c_made ∙ client_is));
        read_fresh = ap (λ (x : TlsConnection). x.app_read.seq) (sym (c_made ∙ client_is));
        transcripts = cc;
      }

  conclude-Agrees :
      (policy : KexPolicy) (conns ends : TlsConnection × TlsConnection)
      (x : Views × List ℕ × List ℕ)
      → x.0.0 ≡ x.0.1
      → conclude sha256 policy conns x ≡ ok ends
      → Agrees ends
  unfolding conclude
  conclude-Agrees policy conns ends x same h =
      let (y, y_is, h1) = bind_result-inv _ _ ends h in
      let (v, v_is, h2) = bind_result-inv _ _ ends h1 in
      install_both-Agrees conns ends v
        (finish_both-same y.0 v y.1 (hear_server-same x.1 x.2 policy x.0 y same y_is) v_is) h2

  module _ (kex : Kex) (rand : Random) where
    bind-inv :
        {A B : Type 0} (f : A → Action sha256 kex rand B) (m : Result TlsError A × rand.World)
        (b : B) (w' : rand.World)
        → bind sha256 kex rand f m ≡ (ok b, w')
        → (a : A) × (w : rand.World) × (m ≡ (ok a, w)) × (f a w ≡ (ok b, w'))
    unfolding bind
    bind-inv f (ok a, w) b w' h = (a, w, refl, h)
    bind-inv f (err e, w) b w' h = absurd (ground arith)

    ok-inj :
        {A : Type 0} (a b : A) (w w' : rand.World)
        → Path (Result TlsError A × rand.World) (ok a, w) (ok b, w')
        → a ≡ b
    ok-inj a b w w' h = cc

    exchange_hellos-same :
        (policy : KexPolicy) (suite : CipherSuite) (psk_id client_sk server_sk : List ℕ)
        (keys : KemKeys) (v : Views) (w w' : rand.World) (x : Views × List ℕ × List ℕ)
        → v.0 ≡ v.1
        → exchange_hellos sha256 kex rand policy suite psk_id client_sk server_sk keys v w
          ≡ (ok x, w')
        → x.0.0 ≡ x.0.1
    unfolding exchange_hellos
    exchange_hellos-same policy suite psk_id client_sk server_sk keys v w w' x same h =
        let (ch, w1, _, h1) = bind-inv _ _ x w' h in
        let (client_random, w2, _, h2) = bind-inv _ _ x w' h1 in
        let (v', w3, bound, h3) = bind-inv _ _ x w' h2 in
        let (sh, w4, _, h4) = bind-inv _ _ x w' h3 in
        let (server_random, w5, _, h5) = bind-inv _ _ x w' h4 in
        let (client_ss, w6, _, h6) = bind-inv _ _ x w' h5 in
        let (shared, w7, _, h7) = bind-inv _ _ x w' h6 in
        let e : v'.0 ≡ v'.1 =
          bind_hello-same _ v v' same
            (ap (λ (r : Result TlsError Views × rand.World). r.0) bound) in
        let made = ok-inj _ x w7 w' h7 in
        sym (ap (λ (y : Views × List ℕ × List ℕ). y.0.0) made)
        ∙ (e ∙ ap (λ (y : Views × List ℕ × List ℕ). y.0.1) made)

    -- A handshake of two ends with the same transcript that succeeds leaves them with the same keys and
    -- the same transcript.
    pub do_handshake-Agrees :
        (hsm : HsmDriver) (conns ends : TlsConnection × TlsConnection) (policy : KexPolicy)
        (suite : CipherSuite) (psk_id : List ℕ) (w w' : rand.World)
        → conns.0.transcript ≡ conns.1.transcript
        → do_handshake sha256 kex rand hsm conns policy suite psk_id w ≡ (ok ends, w')
        → Agrees ends
    unfolding do_handshake
    do_handshake-Agrees hsm conns ends policy suite psk_id w w' same h =
        let (client_sk, w1, _, h1) = bind-inv _ _ ends w' h in
        let (server_sk, w2, _, h2) = bind-inv _ _ ends w' h1 in
        let (keys, w3, _, h3) = bind-inv _ _ ends w' h2 in
        let (v, w4, opened, h4) = bind-inv _ _ ends w' h3 in
        let (x, w5, exchanged, h5) = bind-inv _ _ ends w' h4 in
        let fst = λ (r : Result TlsError Views × rand.World). r.0 in
        let start : fresh_view conns.0 ≡ fresh_view conns.1 =
          ap (λ (t : List ℕ). record { secrets = empty_secrets; transcript = t }) same in
        let e : v.0 ≡ v.1 =
          open_psk-same hsm psk_id (fresh_view conns.0, fresh_view conns.1) v start
            (ap fst opened) in
        conclude-Agrees policy conns ends x
          (exchange_hellos-same policy suite psk_id client_sk server_sk keys v w4 w5 x e exchanged)
          (ap (λ (r : Result TlsError (TlsConnection × TlsConnection) × rand.World). r.0) h5)
