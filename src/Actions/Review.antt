-- ===== src/Actions/Review.antt =====
-- `trfx_init_action_review` and `trfx_prepare_action_review` (src/trfx_actions.c).
use trafix.Prelude.{
  ℕ, Bool, true, false, not, ◌&&◌, ◌||◌, ◌++◌, Option, none, some, ◌==◌, if◌then◌else◌, ◌≡◌, arith,
  take,
}
use trafix.Cstr.Number.{show}
use trafix.Cstr.{codes, clip}
use trafix.Actions.Names.{kind_name}
use trafix.Actions.Requests.{zero_request}
use trafix.Actions.Types.{PermissionStatus, unknown, allowed, denied, Request, Review, text_size}

unfoldable pub init_review : Review
init_review = record {
  request = zero_request;
  permission = unknown;
  can_execute = false;
  requires_confirmation = false;
  prompt = codes "no action selected";
  details = codes "no action selected";
}

unfoldable pub prepare_review : Option Request → ℕ → ℕ → Bool → Review
unfolding init_review kind_name
prepare_review none effective_uid target_uid supported = init_review
prepare_review (some request) effective_uid target_uid supported =
    let r : Review = record {
      request = request;
      permission = unknown;
      can_execute = false;
      requires_confirmation = request.requires_confirmation;
      prompt = codes "no action selected";
      details = clip text_size request.description;
    } in
    if not supported
    then record r {
      permission = PermissionStatus.unsupported;
      can_execute = false;
      prompt = clip text_size (kind_name request.kind ++ codes " is not supported on this system");
    }
    else if request.requires_permission_check
        && not (effective_uid == 0)
        && not (effective_uid == target_uid)
    then record r {
      permission = denied;
      can_execute = false;
      prompt = clip text_size (codes "permission denied: requires root or uid " ++ show target_uid);
    }
    else record r {
      permission = allowed;
      can_execute = true;
      prompt = clip text_size (codes "confirm " ++ take 240 request.description ++ codes "?");
    }

abbrev pub may_act : Request → ℕ → ℕ → Bool
may_act request effective_uid target_uid =
    not request.requires_permission_check || effective_uid == 0 || effective_uid == target_uid

-- An action can be executed exactly if it is supported and the user may act on the target, and its
-- permission is then "allowed"; it is "unsupported" exactly if the action is not supported, and
-- "denied" otherwise. The request is kept, and its description is the detail.
pub prepare_review_lem :
    (request : Request) (effective_uid target_uid : ℕ) (supported : Bool)
    → let r = prepare_review (some request) effective_uid target_uid supported in
      (r.can_execute ≡ (supported && may_act request effective_uid target_uid))
      × (r.permission ≡ (
          if not supported
          then PermissionStatus.unsupported
          else if may_act request effective_uid target_uid
          then allowed
          else denied))
      × (r.request ≡ request)
      × (r.requires_confirmation ≡ request.requires_confirmation)
      × (r.details ≡ clip text_size request.description)
unfolding prepare_review
prepare_review_lem request effective_uid target_uid supported = ground arith
