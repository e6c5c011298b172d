-- ===== src/DeviceAuth/History.antt =====
-- Histories of the service in src/cloud-device-code-auth.ts: approvals, denials and polls, each with
-- its instant and the id of its audit event.
use xautojs_devspace.DeviceAuth.{
  ApproveInput, AuthorizationRecord, Authorizations, Host, ServiceOptions,
}
use xautojs_devspace.DeviceAuth.Methods.{
  HasProgressed, approve-HasProgressed, deny-HasProgressed, poll-HasProgressed,
}
use xautojs_devspace.DeviceAuth.Service.{approve, deny, poll}
use xautojs_devspace.DeviceAuth.Status.{Progress-refl, Progressed, Since, Sound}
use xautojs_devspace.Prelude.{List, Option, [], some, ◌∷◌, ◌≡◌}
use xautojs_devspace.Prelude.JsMap.{Entries, get}
use xautojs_devspace.Prelude.Text.{Text}

pub data AuthorizationCall : Type 0 where
  approving : ApproveInput → AuthorizationCall
  denying : Text → Option Text → AuthorizationCall
  polling : Text → Option Text → AuthorizationCall

module _ (host : Host) (options : ServiceOptions) where
  unfoldable pub perform : Text → Text → AuthorizationCall → Authorizations → Authorizations
  perform clock uuid (approving input) s = (approve host options clock uuid input s).0
  perform clock uuid (denying user_code now) s = (deny host options clock uuid user_code now s).0
  perform clock uuid (polling device_code now) s =
      (poll host options clock uuid device_code now s).0

  unfoldable pub run : List (Text × Text × AuthorizationCall) → Authorizations → Authorizations
  run [] s = s
  run ((clock, uuid, call) ∷ rest) s = run rest (perform clock uuid call s)

  perform-HasProgressed :
      (key : Text) (r : AuthorizationRecord) (clock uuid : Text) (call : AuthorizationCall)
      (s : Authorizations)
      → HasProgressed key r s
      → HasProgressed key r (perform clock uuid call s)
  unfolding perform
  perform-HasProgressed key r clock uuid (approving input) s h =
      approve-HasProgressed host options clock uuid key r s h input
  perform-HasProgressed key r clock uuid (denying user_code now) s h =
      deny-HasProgressed host options clock uuid key r s h user_code now
  perform-HasProgressed key r clock uuid (polling device_code now) s h =
      poll-HasProgressed host options clock uuid key r s h device_code now

  run-HasProgressed :
      (key : Text) (r : AuthorizationRecord) (calls : List (Text × Text × AuthorizationCall))
      (s : Authorizations)
      → HasProgressed key r s
      → HasProgressed key r (run calls s)
  unfolding run
  run-HasProgressed key r [] s h = h
  run-HasProgressed key r ((clock, uuid, call) ∷ rest) s h =
      run-HasProgressed key r rest (perform clock uuid call s)
        (perform-HasProgressed key r clock uuid call s h)

  -- Through every history of approvals, denials and polls, from a store whose records stand under
  -- their own codes and have an owner when approved, the record of a device code stays, with
  -- its user code, expiry and interval; its status never goes back from approved to pending
  -- or from denied to anything else; and once it is not pending, its owner and device stay.
  pub run-Progressed :
      (key : Text) (r : AuthorizationRecord) (calls : List (Text × Text × AuthorizationCall))
      (s : Authorizations)
      → Entries Sound s.by_device_code
      → get key s.by_device_code ≡ some r
      → Progressed r (get key (run calls s).by_device_code)
  unfolding HasProgressed
  run-Progressed key r calls s sound found =
      let start : Since key r s = record {
        sound = sound;
        progressed = rw found (Progress-refl r);
      } in
      let end : Since key r (run calls s) = run-HasProgressed key r calls s start in end.progressed
