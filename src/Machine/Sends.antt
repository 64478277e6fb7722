-- ===== src/Machine/Sends.antt =====
-- Actions that only send commands to the GPU.
use tonyhax.Base.{◌≡◌, refl, sym, ap, ◌∙◌, List, [], ◌∷◌, ◌++◌, append-nil, append_assoc}
use tonyhax.Machine.{Machine, done, M, pure, ◌>>=◌, ◌>>◌, Command, send}

-- The machine after some more commands to the GPU, and nothing else.
abbrev pub sent : Machine → List Command → Machine
sent m cs = record m { screen = record (m.screen) { commands = m.screen.commands ++ cs } }

-- The action returns, and sends exactly these commands.
abbrev pub Sends : M (Unit {0}) → List Command → Type 0
Sends p cs = (m : Machine) → p m ≡ done tt (sent m cs)

pub send-Sends : (c : Command) → Sends (send c) (c ∷ [])
unfolding send
send-Sends c m = refl

pub sent-nil : (m : Machine) → m ≡ sent m []
sent-nil m =
    ap (λ (cs : List Command). record m { screen = record (m.screen) { commands = cs } })
      (sym (append-nil (m.screen.commands)))

pub sent-append : (m : Machine) (cs ds : List Command) → sent (sent m cs) ds ≡ sent m (cs ++ ds)
sent-append m cs ds =
    ap (λ (es : List Command). record m { screen = record (m.screen) { commands = es } })
      (append_assoc (m.screen.commands) cs ds)

pub pure-Sends : Sends (pure tt) []
pure-Sends m = ap (done tt) (sent-nil m)

pub >>-Sends :
    (p q : M (Unit {0})) {cs ds : List Command}
    → Sends p cs
    → Sends q ds
    → Sends (p >> q) (cs ++ ds)
>>-Sends p q {cs} {ds} h k m = rw (h m, ◌>>=◌) (k (sent m cs) ∙ ap (done tt) (sent-append m cs ds))
