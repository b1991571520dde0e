-- ===== src/Engine/Texts.antt =====
-- The texts of desktop/src/engine/mod.rs that go to a peer or to the user.
use antarloka.Prelude.{◌++◌}
use antarloka.Text.{Str, codes}

unfoldable pub no_connection : Str
no_connection = codes "нет соединения"

unfoldable pub data_before_pairing : Str
data_before_pairing = codes "устройство прислало данные до сопряжения"

unfoldable pub pairing_rejected : Str → Str
pairing_rejected reason = codes "сопряжение отклонено: " ++ reason

unfoldable pub rejected_by_user : Str
rejected_by_user = codes "отклонено пользователем"

unfoldable pub rejected_by_receiver : Str
rejected_by_receiver = codes "отклонено получателем"

unfoldable pub connection_gone : Str
connection_gone = codes "Соединение уже закрыто"

unfoldable pub pairing_not_stored : Str → Str
pairing_not_stored e = codes "Не удалось сохранить сопряжение: " ++ e

unfoldable pub trust_not_written : Str → Str
trust_not_written e = codes "Не удалось записать список доверия: " ++ e

unfoldable pub file_too_big : Str
file_too_big = codes "файл слишком большой"

unfoldable pub offer_over_limit : Str → Str
offer_over_limit name = codes "Отклонён файл " ++ (name ++ codes " — превышен лимит размера")

unfoldable pub too_many_transfers : Str
too_many_transfers = codes "слишком много передач"

unfoldable pub file_not_made : Str
file_not_made = codes "не удалось создать файл"

unfoldable pub disk_error : Str
disk_error = codes "ошибка записи на диск"

unfoldable pub done_but_short : Str
done_but_short = codes "отправитель сообщил о завершении, но файл неполный"

unfoldable pub wrong_key : Str → Str
wrong_key addr =
    codes "ВНИМАНИЕ: "
    ++ (addr ++ codes " предъявил другой ключ, чем ожидалось. Соединение разорвано.")

unfoldable pub pairing_forbidden : Str → Str
pairing_forbidden device =
    codes "Отклонён запрос сопряжения от " ++ (device ++ codes ": новые сопряжения запрещены")

unfoldable pub connection_closed : Str
connection_closed = codes "соединение закрыто"

unfoldable pub pairing_timed_out : Str → Str
pairing_timed_out device = codes "Сопряжение с " ++ (device ++ codes " отменено по тайм-ауту")

unfoldable pub cancelled_reason : Str
cancelled_reason = codes "отменено"

unfoldable pub cancelled_by_sender : Str
cancelled_by_sender = codes "отменено отправителем"

unfoldable pub cancelled_by_receiver : Str
cancelled_by_receiver = codes "отменено получателем"

unfoldable pub no_connection_to_device : Str
no_connection_to_device = codes "Нет соединения с устройством"

unfoldable pub not_yet_paired : Str
not_yet_paired = codes "Устройство ещё не сопряжено"

unfoldable pub send_error : Str → Str
send_error e = codes "Ошибка отправки: " ++ e

unfoldable pub unreadable : Str → Str → Str
unreadable name e = codes "Не удалось прочитать " ++ (name ++ (codes ": " ++ e))

unfoldable pub declined : Str → Str
declined reason = codes "получатель отказался: " ++ reason

unfoldable pub no_answer : Str
no_answer = codes "получатель не ответил"

unfoldable pub interrupted : Str
interrupted = codes "прервано получателем"

unfoldable pub file_changed : Str
file_changed = codes "файл изменился во время отправки"

unfoldable pub outside_lan : Str → Str
outside_lan addr =
    codes "Адрес " ++ (addr ++ codes " вне локальной сети (включите доступ вне LAN в настройках)")

unfoldable pub too_many_connections : Str
too_many_connections = codes "Слишком много подключений"

unfoldable pub handshake_failed : Str → Str → Str
handshake_failed addr why = codes "Рукопожатие с " ++ (addr ++ (codes " не удалось: " ++ why))

unfoldable pub not_reachable : Str → Str → Str
not_reachable addr why = codes "Не удалось подключиться к " ++ (addr ++ (codes ": " ++ why))

unfoldable pub not_in_sight : Str
not_in_sight = codes "Устройство не найдено в сети"
