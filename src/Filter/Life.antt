-- ===== src/Filter/Life.antt =====
-- What holds of the filter after any sequence of calls by the framework.
use arduino_q_plugin.Common.{
  ℕ, String, ◌≡◌, refl, sym, ◌∙◌, ap, Bool, true, false, not, if-true, if-false, is_empty,
  if◌then◌else◌,
}
use arduino_q_plugin.Common.Result.{ok}
use arduino_q_plugin.Json.{Json, Fields, JsonLib, get_field}
use arduino_q_plugin.Msgpack.{Msgpack}
use arduino_q_plugin.Socket.{Attempt}
use arduino_q_plugin.Client.{is_open}
use arduino_q_plugin.Plugin.{ReturnType}
use arduino_q_plugin.Caller
use arduino_q_plugin.Caller.{Caller, connected, read_params}
use arduino_q_plugin.Caller.Calls.{IsSound, set_params-IsSound, call_json-socket_fd}
use arduino_q_plugin.Filter.{
  is_string, is_array, refuse, load_data, process, set_params, Step, loading, processing, setting,
  Reach, here, next,
}

module _ (mp : Msgpack) (lib : JsonLib) where
  -- Of the descriptor and the flag, `load_data` changes neither.
  record IsKept (s t : Caller mp.Byte) : Type 0 where
    flag : t.setup_ok ≡ s.setup_ok
    descriptor : t.session.socket_fd ≡ s.session.socket_fd
    text : is_empty s.error_text ≡ false → is_empty t.error_text ≡ false

  load_data-IsKept : (input : Json) (s : Caller mp.Byte) → IsKept s (load_data lib input s).1
  unfolding load_data
  load_data-IsKept input s =
      by_tests s.setup_ok (is_string (get_field "rpc_func" input))
        (is_array (get_field "rpc_args" input))
    where
      kept : IsKept s s
      kept = record { flag = refl; descriptor = refl; text = λ h. h }

      by_tests :
          (a b c : Bool)
          → IsKept s
              (if not a
                then (ok ReturnType.critical, s)
                else if not b
                then refuse lib "Input JSON must contain a string field 'rpc_func'" s
                else if not c
                then refuse lib "Input JSON must contain an array field 'rpc_args'" s
                else (ok ReturnType.success, record s { rpc_call = input })).1
      by_tests false b c = kept
      by_tests true false c = record { flag = refl; descriptor = refl; text = λ h. refl }
      by_tests true true false = record { flag = refl; descriptor = refl; text = λ h. refl }
      by_tests true true true = record { flag = refl; descriptor = refl; text = λ h. h }

  process-IsKept : (s : Caller mp.Byte) → IsKept s (process mp lib s).1
  unfolding process
  process-IsKept s = record {
    flag = refl;
    descriptor = call_json-socket_fd mp lib s.rpc_call s.session;
    text = λ h. h;
  }

  IsKept-IsSound : (s t : Caller mp.Byte) → IsKept s t → IsSound s → IsSound t
  IsKept-IsSound s t kept sound = record {
    open_if_ok = λ good. ap is_open kept.descriptor ∙ sound.open_if_ok (sym kept.flag ∙ good);
    says_why = λ bad. kept.text (sound.says_why (sym kept.flag ∙ bad));
  }

  module _ (base : Json → Fields × String → Fields × String) (sun_path_size : ℕ) where
    Step-IsSound :
        {s t : Caller mp.Byte} → Step mp lib base sun_path_size s t → IsSound s → IsSound t
    unfolding set_params
    Step-IsSound {s} (loading input) sound =
        IsKept-IsSound s (load_data lib input s).1 (load_data-IsKept input s) sound
    Step-IsSound {s} processing sound =
        IsKept-IsSound s (process mp lib s).1 (process-IsKept s) sound
    Step-IsSound {s} (setting params a) sound =
        set_params-IsSound lib base sun_path_size params a s sound.says_why

    Reach-from :
        {s t : Caller mp.Byte} → Reach mp lib base sun_path_size s t → IsSound s → IsSound t
    Reach-from here sound = sound
    Reach-from (next r st) sound = Step-IsSound st (Reach-from r sound)

    -- Once `set_params` was called on a new plugin, and after any sequence of calls then, a setup that
    -- holds has an open client, and one that failed has an error text that says why.
    pub Reach-IsSound :
        (s t : Caller mp.Byte) (params : Json) (a : Attempt)
        → s.setup_ok ≡ true
        → Reach mp lib base sun_path_size (set_params lib base sun_path_size params a s) t
        → IsSound t
    unfolding set_params
    Reach-IsSound s t params a new r =
        Reach-from r (set_params-IsSound lib base sun_path_size params a s (λ bad. cc))

    -- One step of a plugin whose setup failed.
    Step-failed :
        {s t : Caller mp.Byte}
        → Step mp lib base sun_path_size s t
        → s.setup_ok ≡ false
        → t.setup_ok ≡ false
    unfolding set_params Caller.set_params
    Step-failed {s} (loading input) failed = (load_data-IsKept input s).flag ∙ failed
    Step-failed {s} processing failed = (process-IsKept s).flag ∙ failed
    Step-failed {s} (setting params a) failed =
        ap (λ (u : Caller mp.Byte). u.setup_ok)
          (if-false s.setup_ok _ (read_params lib base sun_path_size params s) failed)
        ∙ failed

    Reach-failed :
        {s t : Caller mp.Byte}
        → Reach mp lib base sun_path_size s t
        → s.setup_ok ≡ false
        → t.setup_ok ≡ false
    Reach-failed here failed = failed
    Reach-failed (next r st) failed = Step-failed st (Reach-failed r failed)

    -- A setup that failed fails for good: no sequence of calls mends it, `set_params` with a router
    -- that accepts included, and `load_data` answers critical to every input and changes nothing.
    pub load_data_of_failed :
        (s t : Caller mp.Byte) (input : Json)
        → s.setup_ok ≡ false
        → Reach mp lib base sun_path_size s t
        → load_data lib input t ≡ (ok ReturnType.critical, t)
    unfolding load_data
    load_data_of_failed s t input failed r =
        if-true (not t.setup_ok) _ _ (ap not (Reach-failed r failed))
