-- ===== src/Actions/Execute/Sockets.antt =====
-- The drop of a socket whose owner is known (src/trfx_actions.c): the request holds the addresses of
-- `SocketOwnerInfo` without their ports.
use trafix.Prelude.Int.{ℤ}
use trafix.Prelude.{ℕ, zero, suc, ◌-◌, true, false, [], ◌∷◌, take, some, ◌≡◌, refl, arith}
use trafix.Cstr.{Text, codes, mem_char, clip, contains}
use trafix.Actions.Audit.{Audit}
use trafix.Actions.Endpoint.{split_endpoint-no_colon}
use trafix.Actions.Requests.{SocketOwnerInfo, set_socket_drop, set_string}
use trafix.Actions.Types.{address_size, protocol_size, failed}
use trafix.Actions.World.{World}
use trafix.Actions.Execute.{
  run_ss_with, run_ss_drop_action, after_drop, drop_action, act, perform, execute,
}

take_free : (c n : ℕ) (s : Text) → mem_char c s ≡ false → mem_char c (take n s) ≡ false
unfolding mem_char
take_free c zero s h = refl
take_free c (suc n) [] h = refl
take_free c (suc n) (x ∷ s) h = ground (arith, take_free c n s)

set_string_free :
    (size : ℕ) (s : Text) → mem_char b':' s ≡ false → mem_char b':' (set_string size s) ≡ false
unfolding set_string clip mem_char
set_string_free size [] h = take_free b':' (size - 1) (codes "-") refl
set_string_free size (c ∷ s) h = take_free b':' (size - 1) (c ∷ s) h

-- A confirmed drop of a socket whose local address has no colon (an IPv4 address) fails even for root,
-- before `ss` is run: with 256 bytes for the error, the status is "failed", the
-- message is "connection endpoints unavailable", and there is no effect.
pub execute-set_socket_drop :
    (w : World) (now : ℤ) (audit : Audit) (s : SocketOwnerInfo)
    → mem_char b':' s.laddr ≡ false
    → let done = execute w now audit (some (set_socket_drop (some s))) true 0 256 in
      (done.result.status ≡ failed)
      × (done.result.message ≡ codes "connection endpoints unavailable")
      × (done.effects ≡ [])
unfolding execute perform act drop_action after_drop run_ss_drop_action run_ss_with set_socket_drop
    clip contains
execute-set_socket_drop w now audit s h =
    let free = set_string_free address_size s.laddr h in
    let split =
      split_endpoint-no_colon address_size protocol_size (set_string address_size s.laddr) free in
    rw split (refl, refl, refl)
