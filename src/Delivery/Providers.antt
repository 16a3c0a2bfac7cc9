-- ===== src/Delivery/Providers.antt =====
-- providers/stub.py and providers/factory.py: the providers that the worker is started with. The
-- numbers of the failure rate and of `random.random()`, with their order, are parameters.
use substy.Base.{Bool, true, false, Option, none, some, String, if◌then◌else◌, str_eq}
use substy.Delivery.Executor.{Provider}

module _ {Number : Type 0} (zero one : Number) (min max : Number → Number → Number)
    (below : Number → Number → Bool) where
  -- `_BaseStubProvider.__init__`: the rate, cut to what a probability may be.
  unfoldable pub base_stub_provider : Number → Number
  base_stub_provider fail_rate = max zero (min one fail_rate)

  -- `send`, with the number that was drawn.
  unfoldable pub stub_send : Number → Number → Provider
  stub_send rate drawn user_id payload =
      if below drawn rate
      then some (record {
        success = false;
        error_code = some "stub_error";
        error_message = some "Stub provider failure";
      })
      else some (record { success = true; error_code = none; error_message = none })

  unfoldable pub build_providers : Number → Number → String → Option Provider
  build_providers provider_stub_fail_rate drawn channel =
      if str_eq channel "push"
      then some stub
      else if str_eq channel "email"
      then some stub
      else if str_eq channel "web"
      then some stub
      else none
    where
      stub : Provider
      stub = stub_send (base_stub_provider provider_stub_fail_rate) drawn
