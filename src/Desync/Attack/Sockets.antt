-- ===== src/Desync/Attack/Sockets.antt =====
-- The raw socket of `do_desync_attack` is closed on every path.
use dpitunnel_cli.Prelude.{
  ℕ, ◌+◌, ◌≡◌, refl, arith, ℤ, Bool, true, false, Option, none, some, [], Bytes,
}
use dpitunnel_cli.Prelude.{if_cases}
use dpitunnel_cli.Prelude.Outcome.{Outcome, done, fault, out_of_fuel}
use dpitunnel_cli.Settings.{
  DesyncZeroAttacks, DesyncFirstAttacks, desync_zero_fake, desync_zero_rst,
}
use dpitunnel_cli.Settings.{
  desync_zero_rstack, desync_zero_none, desync_first_disorder, desync_first_disorder_fake,
}
use dpitunnel_cli.Settings.{desync_first_split, desync_first_split_fake, desync_first_none}
use dpitunnel_cli.Desync.Packet.{Fields, form_packet}
use dpitunnel_cli.Desync.Raw.{
  Kernel, Wire, M, Step, go, ret, crash, next, lift, read_data, draw_id, ◌>>=◌, ◌>>◌,
}
use dpitunnel_cli.Desync.Raw.{send_or_return, send_string_raw, close_unless_sent}
use dpitunnel_cli.Desync.Attack.{
  Attack, Options, form, form_empty, send_data, send_second, send_whole,
}
use dpitunnel_cli.Desync.Attack.{
  send_rst, zero_attack, first_attack, only_data, both_attacks, attack_on,
}
use dpitunnel_cli.Desync.Attack.{
  th_rst, th_rst_ack, skips_fakes, check, got, opened, do_desync_attack,
}

-- With `n + 1` sockets open before: as many while the code goes on, one less once it has returned.
abbrev Closes : {A : Type 0} → ℕ → Step A × Wire → Type 0
Closes n (go a, w) = w.open_sockets ≡ n + 1
Closes n (ret c, w) = w.open_sockets ≡ n
Closes n (crash, w) = Unit

-- The code has returned with `n` sockets open, or has read or written out of bounds.
abbrev pub ReturnsClosed : ℕ → Step ℤ × Wire → Type 0
ReturnsClosed n (ret c, w) = w.open_sockets ≡ n
ReturnsClosed n (go c, w) = ⊥
ReturnsClosed n (crash, w) = Unit

module _ (n : ℕ) where
  abbrev Keeps : {A : Type 0} → M A → Type 0
  Keeps m = (w : Wire) → w.open_sockets ≡ n + 1 → Closes n (m w)

  Closes-next :
      {A B : Type 0} (x : Step A × Wire) (f : A → M B)
      → Closes n x
      → ((a : A) → Keeps (f a))
      → Closes n (next x f)
  Closes-next (go a, w) f c h = h a w c
  Closes-next (ret c', w) f c h = c
  Closes-next (crash, w) f c h = tt

  bind :
      {A B : Type 0} (m : M A) (f : A → M B) → Keeps m → ((a : A) → Keeps (f a)) → Keeps (m >>= f)
  bind m f k h w e = Closes-next (m w) f (k w e) h

  abbrev Finishes : M ℤ → Type 0
  Finishes m = (w : Wire) → w.open_sockets ≡ n + 1 → ReturnsClosed n (m w)

  ReturnsClosed-next :
      {A : Type 0} (x : Step A × Wire) (f : A → M ℤ)
      → Closes n x
      → ((a : A) → Finishes (f a))
      → ReturnsClosed n (next x f)
  ReturnsClosed-next (go a, w) f c h = h a w c
  ReturnsClosed-next (ret c', w) f c h = c
  ReturnsClosed-next (crash, w) f c h = tt

  finish :
      {A : Type 0} (m : M A) (f : A → M ℤ)
      → Keeps m
      → ((a : A) → Finishes (f a))
      → Finishes (m >>= f)
  finish m f k h w e = ReturnsClosed-next (m w) f (k w e) h

  finish_after : (m : M (Unit {0})) (f : M ℤ) → Keeps m → Finishes f → Finishes (m >> f)
  finish_after m f k h = finish m (λ _. f) k (λ _. h)

  Keeps-lift : {A : Type 0} (r : Outcome A) → Keeps (lift r)
  Keeps-lift (done a) w e = e
  Keeps-lift fault w e = tt
  Keeps-lift out_of_fuel w e = tt

  Keeps-read : (s : Bytes) (at count : ℕ) → Keeps (read_data s at count)
  Keeps-read s at count w e = ground arith

  Keeps-draw : (k : Kernel) → Keeps (draw_id k)
  unfolding draw_id
  Keeps-draw k w e = e

  Keeps-send : (k : Kernel) (p : Bytes) → Keeps (send_or_return k p)
  unfolding send_or_return send_string_raw close_unless_sent
  Keeps-send k p w e = ground arith

  module _ (k : Kernel) (a : Attack) (o : Options) where
    Keeps-form : (f : Fields) (d : Bytes) → Keeps (form k a o f d)
    unfolding form
    Keeps-form f d = Keeps-lift (form_packet a.checksums f a.packet_raw d)

    Keeps-form_send : (f : Fields) (d : Bytes) → Keeps (form k a o f d >>= send_or_return k)
    Keeps-form_send f d = bind (form k a o f d) (send_or_return k) (Keeps-form f d) (Keeps-send k)

    Keeps-data : (id at count : ℕ) → Keeps (send_data k a o id at count)
    unfolding send_data
    Keeps-data id at count =
        bind (read_data a.packet_data at count) _ (Keeps-read a.packet_data at count)
          (λ bytes. Keeps-form_send _ bytes)

    Keeps-empty : (id : ℕ) → Keeps (form_empty k a o id)
    unfolding form_empty
    Keeps-empty id =
        bind (read_data _ 0 a.split_pos) _ (Keeps-read _ 0 a.split_pos)
          (λ bytes. Keeps-form _ bytes)

    Keeps-whole : Keeps (send_whole k a o)
    unfolding send_whole
    Keeps-whole = bind (draw_id k) _ (Keeps-draw k) (λ id. Keeps-data id 0 a.last_char)

    Keeps-second : Keeps (send_second k a o)
    unfolding send_second
    Keeps-second = bind (draw_id k) _ (Keeps-draw k) (λ id. Keeps-data id a.split_pos _)

    Keeps-rst : (flags : ℕ) → Keeps (send_rst k a o flags)
    unfolding send_rst
    Keeps-rst flags = bind (draw_id k) _ (Keeps-draw k) (λ id. Keeps-form_send _ [])

    Keeps-zero : (kind : DesyncZeroAttacks) → Keeps (zero_attack k a o kind)
    unfolding zero_attack
    Keeps-zero desync_zero_fake = bind (draw_id k) _ (Keeps-draw k) (λ id. Keeps-form_send _ _)
    Keeps-zero desync_zero_rst = Keeps-rst th_rst
    Keeps-zero desync_zero_rstack = Keeps-rst th_rst_ack
    Keeps-zero desync_zero_none = λ w e. e

    -- `m` and then what follows it.
    after : {B : Type 0} (m : M (Unit {0})) (f : M B) → Keeps m → Keeps f → Keeps (m >> f)
    after m f k h = bind m (λ _. f) k (λ _. h)

    Keeps-first : (id : ℕ) (kind : DesyncFirstAttacks) → Keeps (first_attack k a o id kind)
    unfolding first_attack
    Keeps-first id desync_first_disorder = after _ _ Keeps-second (Keeps-data id 0 a.split_pos)
    Keeps-first id desync_first_disorder_fake = after _ _ Keeps-second (
        bind (form_empty k a o id) _ (Keeps-empty id) (λ p.
          after _ _ (Keeps-send k p) (after _ _ (Keeps-data id 0 a.split_pos) (Keeps-send k p))))
    Keeps-first id desync_first_split = after _ _ (Keeps-data id 0 a.split_pos) Keeps-second
    Keeps-first id desync_first_split_fake = bind (form_empty k a o id) _ (Keeps-empty id) (λ p.
        after _ _ (Keeps-send k p)
          (after _ _ (Keeps-data id 0 a.split_pos) (after _ _ (Keeps-send k p) Keeps-second)))
    Keeps-first id desync_first_none = Keeps-whole

  Keeps-check : (b : Bool) → Keeps (check b)
  unfolding check
  Keeps-check true w e = e
  Keeps-check false w e = omega arith

  Keeps-got : (v : Option ℕ) → Keeps (got v)
  unfolding got
  Keeps-got none w e = omega arith
  Keeps-got (some v) w e = e

  module _ (k : Kernel) (a : Attack) where
    Finishes-attack_on : (o : Options) → Finishes (attack_on k a o)
    unfolding attack_on only_data both_attacks
    Finishes-attack_on o = finish (draw_id k) _ (Keeps-draw k) (λ id.
        if_cases Finishes (skips_fakes a) _ _
          (λ _. finish_after (send_whole k a o) _ (Keeps-whole k a o) (λ w e. omega arith))
          (λ _.
            finish_after (zero_attack k a o _) _ (Keeps-zero k a o a.profile.desync_zero_attack) (
              finish_after (first_attack k a o id _) _
                (Keeps-first k a o id a.profile.desync_first_attack) (λ w e. omega arith))))

    -- With the socket open.
    Finishes-opened : Finishes (
        check k.sndbuf_ok
        >> (check k.hdrincl_ok
            >> (got k.default_ttl >>= λ ttl. got k.max_segment >>= λ window.
                attack_on k a (record { default_ttl = ttl; window_size = window }))))
    Finishes-opened = finish_after (check k.sndbuf_ok) _ (Keeps-check k.sndbuf_ok) (
        finish_after (check k.hdrincl_ok) _ (Keeps-check k.hdrincl_ok) (
          finish (got k.default_ttl) _ (Keeps-got k.default_ttl) (λ ttl.
            finish (got k.max_segment) _ (Keeps-got k.max_segment)
              (λ window. Finishes-attack_on (record { default_ttl = ttl; window_size = window })))))

opened-ReturnsClosed :
    (b : Bool) (f : M ℤ) (w : Wire)
    → Finishes w.open_sockets f
    → ReturnsClosed w.open_sockets ((opened b >> f) w)
unfolding opened
opened-ReturnsClosed true f w h = h (record w { open_sockets = w.open_sockets + 1 }) refl
opened-ReturnsClosed false f w h = refl

-- Whatever the kernel answers and wherever the code stops, `do_desync_attack` returns with as many
-- sockets open as before, unless it reads or writes out of bounds.
pub do_desync_attack-ReturnsClosed :
    (k : Kernel) (a : Attack) (w : Wire) → ReturnsClosed w.open_sockets (do_desync_attack k a w)
unfolding do_desync_attack
do_desync_attack-ReturnsClosed k a w =
    opened-ReturnsClosed k.socket_ok _ w (Finishes-opened w.open_sockets k a)
