-- ===== src/Bot/Updates.antt =====
-- internal/bot/server.go: the options of a dispatcher, and where its updates come from.
use cribe.Prelude.{
  String, ◌<>◌, Bool, true, false, ◌≡◌, ◌==◌, ltb, not, arith, inl, inr, if◌then◌else◌,
}
use cribe.Prelude.Decimal.{ℤ, pos, negsuc, itoa}
use cribe.Errors.{Error, message}
use cribe.Exec.{ok, Exec, pure, fail, raise, annotate, attempt, ◌>>=◌, ◌>>◌, Result-cases}
use cribe.Bot.Services.{ApiResponse}
use cribe.Srvenv.{Config, TelegramConfig}

pub record Options : Type 0 where
  pub bucket : String
  pub telegram_polling_timeout : ℤ
  pub telegram_updates_max_workers : ℤ
  pub fetching_max_worker : ℤ
  pub uploading_max_worker : ℤ

-- The options that `NewDispatcher` reads from the configuration, before any `Option` is applied.
unfoldable pub options_of : Config → Options
options_of cfg = record {
  bucket = cfg.storage.bucket;
  telegram_polling_timeout = cfg.telegram.polling_timeout;
  telegram_updates_max_workers = cfg.telegram_updates_max_workers;
  fetching_max_worker = cfg.fetching_max_workers;
  uploading_max_worker = cfg.uploading_max_workers;
}

-- What `setupTelegramMode` calls of the Telegram client. `U` is the type of an updates channel. An
-- update's configuration is its offset and its timeout; `serve` starts the goroutine that listens, and
-- `listen_and_serve` is `http.ListenAndServe` on `http.DefaultServeMux`.
pub record TelegramApi (U S : Type 0) : Type 0 where
  pub set_webhook : String → Exec S (Unit {0})
  pub get_webhook_info : Exec S (Unit {0})
  pub listen_for_webhook : String → Exec S U
  pub serve : String → Exec S (Unit {0})
  pub listen_and_serve : String → Exec S (Unit {0})
  pub remove_webhook : Exec S ApiResponse
  pub get_updates_chan : ℤ → ℤ → Exec S U

abbrev is_positive : ℤ → Bool
is_positive (pos n) = ltb 0 n
is_positive (negsuc n) = false

module _ {U S : Type 0} (telegram : TelegramApi U S) where
  abbrev refusal : ApiResponse → Error
  refusal resp =
      if is_positive resp.error_code
      then message (
          "telegram client remove webhook with error code "
          <> (itoa resp.error_code <> (" and description " <> resp.description)))
      else message "telegram client remove webhook response not ok"

  -- The branch with a webhook. What the information says is only logged.
  unfoldable pub by_webhook : TelegramConfig → Exec S U
  by_webhook cfg = do
    annotate "telegram set webhook" (telegram.set_webhook (cfg.web_hook_url <> cfg.token))
    annotate "telegram get webhook info" telegram.get_webhook_info
    updates ← telegram.listen_for_webhook ("/" <> cfg.token)
    telegram.serve cfg.web_hook_url
    pure updates

  -- The goroutine that listens. `logger.Fatalf` ends the program, as a panic does.
  unfoldable pub serve_webhook : TelegramConfig → Exec S (Unit {0})
  serve_webhook cfg =
      attempt (telegram.listen_and_serve cfg.web_hook_url)
        (λ e. raise "Listen and serve http stopped") (λ _. pure tt)

  unfoldable pub by_polling : Options → Exec S U
  by_polling opts = do
    resp ← annotate "telegram client remove webhook" telegram.remove_webhook
    (if resp.ok
        then annotate "telegram get updates chan"
            (telegram.get_updates_chan (pos 0) opts.telegram_polling_timeout)
        else fail (refusal resp))

  unfoldable pub setup_telegram_mode : Options → TelegramConfig → Exec S U
  unfolding by_webhook by_polling
  setup_telegram_mode opts cfg =
      if not (cfg.web_hook_url == "") then by_webhook cfg else by_polling opts

  -- Polling that starts.
  abbrev pub Polls : Options → S → U → Type 0
  Polls opts s u =
      (resp : ApiResponse) × ((telegram.remove_webhook s).0 ≡ ok resp)
      × (resp.ok ≡ true)
      × ((telegram.get_updates_chan (pos 0) opts.telegram_polling_timeout
            (telegram.remove_webhook s).1).0
          ≡ ok u)

  by_polling-Polls :
      (opts : Options) (s : S) (u : U) → (by_polling opts s).0 ≡ ok u → Polls opts s u
  unfolding by_polling
  by_polling-Polls opts s u h = elim (Result-cases (telegram.remove_webhook s).0) [
    | inl (resp, g) ↦ (resp, g, ground arith, ground arith)
    | inr (inl (x, g)) ↦ cc (rw g at h)
    | inr (inr (x, g)) ↦ cc (rw g at h)
  ]

  -- Without a webhook address, updates that are got are got by polling with the configured timeout,
  -- after Telegram has confirmed that it removed the webhook.
  pub setup_telegram_mode-Polls :
      (opts : Options) (cfg : TelegramConfig) (s : S) (u : U)
      → cfg.web_hook_url ≡ ""
      → (setup_telegram_mode opts cfg s).0 ≡ ok u
      → Polls opts s u
  unfolding setup_telegram_mode
  setup_telegram_mode-Polls opts cfg s u e h = by_polling-Polls opts s u (rw e at h)
