-- ===== src/ConditionVariable/Examples.antt =====
-- The theorems on the condition variable at concrete inputs.
use xcoro.Base.{◌≡◌, refl, true, false, none, some, []}
use xcoro.Mutex.{init}
use xcoro.ConditionVariable.{ConditionVariable, notify_one, wait, await_suspend}
use xcoro.ConditionVariable.Notify.{wait-notify}

abbrev idle_variable : ConditionVariable
idle_variable = record {
  waiters = [];
  store = λ _. none;
  associated_mutex = λ _. none;
  next = 0;
  mutexes = λ _. init;
}

wait-notify_example :
    let (a, cv', handed, stays) = await_suspend (wait 3 false) idle_variable 9 false false in
    let (cv'', resumed) = notify_one cv' in
    (handed ≡ none)
    × (stays ≡ true)
    × ((cv'.mutexes 3).locked ≡ false)
    × (resumed ≡ some 9)
    × ((cv''.mutexes 3).locked ≡ true)
    × (cv''.waiters ≡ [])
wait-notify_example = wait-notify idle_variable 3 9 false false refl refl
