-- ===== src/Proxy/Server/Handle/Refusal.antt =====
-- The answers of a proxy without routes.
use unroxy.Base.{ℕ, Option, none, some, if◌then◌else◌, ◌≡◌}
use unroxy.Base.Text.{Text, codes, text_eq}
use unroxy.Proxy.Server.Handle.{Outside, State, Forwards, Answer}

abbrev web_status : Text → ℕ
web_status scheme =
    if text_eq scheme (codes "http")
    then 501
    else if text_eq scheme (codes "https")
    then 501
    else 400

-- The status for a whole address, by its scheme.
abbrev pub absolute_status : Option Text → ℕ
absolute_status none = 501
absolute_status (some scheme) = web_status scheme

module _ (outside : Outside) where
  module _ (forwards : Forwards outside) where
    -- An answer of this status, without a change of the state.
    abbrev pub IsRefusal : ℕ → State outside → Option (Answer outside) → Type 0
    IsRefusal status state none = ⊥
    IsRefusal status state (some answer) =
        (answer.response.status ≡ status) × (answer.state ≡ state)
