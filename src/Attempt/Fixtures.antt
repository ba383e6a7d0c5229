-- ===== src/Attempt/Fixtures.antt =====
-- One worker's attempt, as the tests of both gates observe it, on a platform whose clock shows the
-- first minute of 2026.
use bke_worker.Prelude.{
  ◌*◌, [], ◌-◌, false, some, ◌∷◌, true, none, ◌/◌, drop, ◌%◌, ◌++◌, ◌+◌, Option, if◌then◌else◌, ℕ,
  String,
}
use bke_worker.Attempt.Platform.{chat_origin, Url, Platform}
use bke_worker.Text.{starts_with, text, Text}
use bke_worker.Js.Integer.{negsuc, pos, ℤ}
use bke_worker.Js.Value.{bool, nil, end, cons, num, field, arr, obj, str, Fields, Value}

-- The first seventeen units of every time of the tests.
abbrev minute : Text
minute = text "2026-01-01T00:00:"

abbrev digit : ℕ → ℕ
digit n = b'0' + n % 10

abbrev pub seconds_of : Text → Option ℤ
seconds_of (a ∷ b ∷ dot ∷ c ∷ d ∷ e ∷ z ∷ []) =
    some (
      pos
        ((a - b'0') * 10000 + (b - b'0') * 1000 + (c - b'0') * 100 + (d - b'0') * 10 + (e - b'0')))
seconds_of t = none

abbrev pub in_minute : ℤ → Text
in_minute (pos n) =
    minute
    ++ (digit (n / 10000)
        ∷ digit (n / 1000)
        ∷ b'.'
        ∷ digit (n / 100)
        ∷ digit (n / 10)
        ∷ digit n
        ∷ b'Z'
        ∷ [])
in_minute (negsuc n) = []

abbrev pub chat_url : Text → Option Url
chat_url t =
    if starts_with t chat_origin
    then some (record {
      protocol = text "https:";
      origin = chat_origin;
      username = [];
      password = [];
      search = [];
      hash = [];
      pathname = drop 19 t;
    })
    else none

abbrev pub platform : Platform
platform = record {
  parse_date = λ t. if starts_with t minute then seconds_of (drop 17 t) else none;
  to_iso_string = in_minute;
  parse_url = chat_url;
}

abbrev pub sha_a : Text
sha_a = text "aaaaaaaaaaaaaaaaaaaaaaaaaaaaaaaaaaaaaaaa"

abbrev pub commit_b : Text
commit_b = text "bbbbbbbbbbbbbbbbbbbbbbbbbbbbbbbbbbbbbbbb"

-- A time of the minute, by its seconds
abbrev pub at : String → Value
at s = str (minute ++ text s)

-- The six properties that a fence, a receipt and a claim share with the request.
abbrev pub shared : Fields → Fields
shared rest = field (text "attemptId") (str (text "attempt-1")) (
    field (text "workerId") (str (text "worker-1")) (
      field (text "headSha") (str sha_a) (
        field (text "targetId") (str (text "target-0001")) (
          field (text "profileId") (str (text "profile-001"))
            (field (text "targetTabId") (num (pos 7)) rest)))))

abbrev pub request_with : Fields → Value
request_with rest = obj (
    field (text "protocolVersion") (num (pos 1)) (
      field (text "repository") (str (text "jan2xo/bke-worker")) (
        field (text "prNumber") (num (pos 12))
          (field (text "executionId") (str (text "execution-1")) (shared rest)))))

-- Two earlier conversations, the second of which is the previous one.
abbrev pub prior : Value
prior = arr (cons (str (text "conversation-1")) (cons (str (text "conversation-2")) nil))

abbrev pub github_with : Fields → Value
github_with rest = obj (
    field (text "repository") (str (text "jan2xo/bke-worker")) (
      field (text "prNumber") (num (pos 12)) (
        field (text "currentHeadSha") (str sha_a) (
          field (text "assignedWorkerId") (str (text "worker-1")) (
            field (text "workerOpenPrAssignments") (num (pos 1)) (
              field (text "prAssignedWorkerCount") (num (pos 1)) (
                field (text "prOpen") (bool true) (
                  field (text "currentAttemptId") (str (text "attempt-1")) (
                    field (text "previousAttemptResolved") (bool true) (
                      field (text "previousConversationId") (str (text "conversation-2")) (
                        field (text "priorConversationIds") prior
                          (field (text "attemptAuthorizedAt") (at "01.000Z") rest))))))))))))

abbrev pub page_with : (ui url : String) → Value
page_with ui url = obj (
    field (text "targetId") (str (text "target-0001")) (
      field (text "profileId") (str (text "profile-001")) (
        field (text "tabId") (num (pos 7)) (
          field (text "observedAt") (at "20.000Z") (
            field (text "url") (str (text url)) (
              field (text "uiState") (str (text ui)) (
                field (text "visible") (bool true) (
                  field (text "composerAvailable") (bool true)
                    (field (text "turnBusy") (bool false) end)))))))))

abbrev pub browser_with : (page : Value) → Fields → Value
browser_with page rest = obj (
    field (text "ownedTargetId") (str (text "target-0001")) (
      field (text "ownedProfileId") (str (text "profile-001")) (
        field (text "ownedTargetTabId") (num (pos 7)) (
          field (text "matchingWritableTargetCount") (num (pos 1)) (
            field (text "profileIsolated") (bool true) (
              field (text "sharedWritableProfile") (bool false)
                (field (text "current") page rest)))))))

abbrev pub input_of : (request github browser : Value) → Value
input_of request github browser = obj (
    field (text "request") request (
      field (text "github") github
        (field (text "browser") browser (field (text "nowIso") (at "21.000Z") end))))
