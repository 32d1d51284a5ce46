-- ===== src/Language/French/Messages.antt =====
-- spa/src/i18n/fr.js: the lines 266 to 377.
use esphome_gplug.Base.{[], ◌∷◌}
use esphome_gplug.Language.{Table, says, takes, lit, arg}

abbrev pub french_messages : Table
french_messages =
    says "memTitle" "Mémoire"
    ∷ says "memFree" "Libre"
    ∷ says "memMin" "Minimum depuis le démarrage"
    ∷ says "memLargest" "Plus grand bloc"
    ∷ says "memMinShort" "Minimum"
    ∷ says "memSampled" "Mesuré à"
    ∷ says "memStack" "Pile libre (boucle / HTTP)"
    ∷ takes "memTrend" 1 (lit "Évolution, dernières " ∷ arg 0 ∷ [])
    ∷ says "memWaiting" "La première mesure suit peu après le démarrage."
    ∷ says "memHint"
        "Une courbe qui baisse sans cesse sur plusieurs jours signale une fuite de mémoire. Un redémarrage efface l'évolution."
    ∷ takes "memSummary" 1 (arg 0 ∷ lit " libres" ∷ [])
    ∷ says "logTitle" "Journal des événements"
    ∷ says "logHint"
        "Les 32 derniers événements, enregistrés dans l'appareil et conservés au redémarrage. Ils montrent surtout pourquoi l'appareil a redémarré."
    ∷ says "logEmpty" "Aucun événement enregistré pour l'instant."
    ∷ says "logCopy" "Copier le journal"
    ∷ says "logDownload" "Enregistrer comme fichier"
    ∷ says "copyFailedShort" "Impossible"
    ∷ says "copyFailed"
        "Ce navigateur n'autorise pas la copie via une connexion non chiffrée. Enregistrez plutôt le journal comme fichier."
    ∷ takes "logRepeat" 1 (lit "répété " ∷ arg 0 ∷ lit "×" ∷ [])
    ∷ takes "logUptime" 1 (lit "après " ∷ arg 0 ∷ lit " de fonctionnement" ∷ [])
    ∷ takes "logHeap" 1 (arg 0 ∷ lit " kB libres" ∷ [])
    ∷ takes "logLowFree" 1 (lit "mémoire libre " ∷ arg 0 ∷ lit " kB" ∷ [])
    ∷ takes "logLowLargest" 1 (lit "plus grand bloc " ∷ arg 0 ∷ lit " kB" ∷ [])
    ∷ takes "logSockets" 2 (arg 0 ∷ lit " connexions sur " ∷ arg 1 ∷ lit " occupées" ∷ [])
    ∷ says "evBoot" "Redémarrage"
    ∷ says "evOta" "Micrologiciel mis à jour"
    ∷ says "evWifiUp" "Wi-Fi connecté"
    ∷ says "evWifiLost" "Wi-Fi perdu"
    ∷ says "evMeterLost" "Aucune donnée du compteur"
    ∷ says "evMeterOk" "Données du compteur rétablies"
    ∷ says "evConfig" "Configuration modifiée"
    ∷ says "evStorage" "Problème de mémoire"
    ∷ says "evButton" "Bouton pressé : identifiants Wi-Fi effacés"
    ∷ says "evLowHeap" "Mémoire faible"
    ∷ says "evRestart" "Redémarrage demandé"
    ∷ says "evSockets" "Connexions presque épuisées"
    ∷ says "evUnknown" "Événement inconnu"
    ∷ says "rrPoweron" "Mise sous tension"
    ∷ says "rrExt" "Broche de réinitialisation"
    ∷ says "rrSw" "Redémarrage par le micrologiciel"
    ∷ says "rrPanic" "Plantage"
    ∷ says "rrWdt" "Chien de garde : l'appareil ne répondait plus"
    ∷ says "rrBrownout" "Sous-tension : vérifier l'alimentation"
    ∷ says "rrUnknown" "Raison inconnue"
    ∷ says "cfgHardware" "Appareil"
    ∷ says "cfgMeter" "Compteur"
    ∷ says "cfgWifi" "Wi-Fi"
    ∷ says "cfgMqtt" "MQTT"
    ∷ says "stWrite" "Échec de l'écriture dans l'historique"
    ∷ says "stUnavail" "Mémoire d'historique indisponible"
    ∷ says "mqttTitle" "MQTT"
    ∷ says "mqttOff" "désactivé"
    ∷ says "mqttConnecting" "connexion…"
    ∷ says "mqttConnected" "connecté"
    ∷ says "mqttError" "en pause"
    ∷ says "mqttErrTcp" "Broker injoignable"
    ∷ says "mqttErrRefused" "Broker refuse"
    ∷ says "mqttErrAuth" "Identifiants refusés"
    ∷ says "mqttState" "État"
    ∷ says "mqttSent" "Messages"
    ∷ takes "mqttStats" 2 (arg 0 ∷ lit " envoyés · " ∷ arg 1 ∷ lit " abandonnés" ∷ [])
    ∷ says "mqttEnable" "Activer MQTT"
    ∷ says "mqttHint"
        "Envoie les valeurs du compteur à un broker MQTT, p. ex. pour Node-RED, ioBroker ou InfluxDB. Home Assistant n’en a pas besoin."
    ∷ says "mqttHost" "Broker (nom ou IP)"
    ∷ says "mqttPort" "Port"
    ∷ says "mqttUser" "Utilisateur (facultatif)"
    ∷ says "mqttPassword" "Mot de passe (facultatif)"
    ∷ says "mqttPasswordKeep" "inchangé"
    ∷ says "mqttPasswordClear" "Effacer le mot de passe enregistré"
    ∷ says "mqttPeriod" "Intervalle (secondes)"
    ∷ says "mqttQos" "QoS"
    ∷ says "mqttClientId" "ID client (facultatif)"
    ∷ says "mqttRetain" "Conserver la dernière valeur sur le broker (retain)"
    ∷ says "mqttPreset" "Modèle"
    ∷ says "mqttPresetJson" "JSON, un message"
    ∷ says "mqttPresetEach" "Un topic par valeur"
    ∷ says "mqttPresetInflux" "InfluxDB line protocol"
    ∷ says "mqttPresetCustom" "Personnalisé"
    ∷ says "mqttModePeriod" "Un par intervalle"
    ∷ says "mqttModeEach" "Un par valeur"
    ∷ says "mqttTopic" "Topic"
    ∷ says "mqttPayload" "Message"
    ∷ says "mqttKeys" "Espaces réservés"
    ∷ says "mqttKeysHint" "Remplacez … par le nom ou le code OBIS d’un registre :"
    ∷ says "mqttPreview" "Aperçu avec les valeurs actuelles"
    ∷ says "mqttPreviewNone" "Pas encore de valeurs du compteur pour l’aperçu."
    ∷ takes "mqttWorst" 2
        (lit "Message au plus " ∷ arg 0 ∷ lit " sur " ∷ arg 1 ∷ lit " octets" ∷ [])
    ∷ takes "mqttWorstTopic" 2 (lit "topic au plus " ∷ arg 0 ∷ lit " sur " ∷ arg 1 ∷ [])
    ∷ says "mqttSave" "Enregistrer"
    ∷ says "mqttSaved" "Enregistré"
    ∷ says "mqttStatusEnable" "Envoyer l’état de l’appareil"
    ∷ says "mqttStatusHint"
        "Mémoire, firmware, Wi-Fi, durée de fonctionnement et diagnostic du compteur en JSON, même quand le compteur se tait."
    ∷ says "mqttStatusPeriod" "Intervalle d’état (secondes)"
    ∷ says "mqttStatusTopic" "Topic d’état"
    ∷ says "mqttAvailTopic" "Topic de disponibilité"
    ∷ says "mqttAvailHint"
        "« online » après la connexion ; si le gPlug disparaît, le broker met « offline » (last will). Vide = désactivé. Les deux topics ne connaissent que {device} et {mac}."
    ∷ says "mqttStatusPreview" "Message d’état tel qu’il serait maintenant"
    ∷ takes "tplAt" 3 (arg 0 ∷ lit ", caractère " ∷ arg 2 ∷ lit " : " ∷ arg 1 ∷ [])
    ∷ says "tplSyntax" "espace réservé sans } fermante"
    ∷ says "tplUnknown" "espace réservé ou registre inconnu"
    ∷ says "tplContext" "espace réservé inadapté à ce type de message"
    ∷ says "tplTopic"
        "+ et # sont interdits dans le topic ; « Un par valeur » exige {name} ou {obis}"
    ∷ says "tplEmpty" "ne doit pas être vide"
    ∷ says "tplTooLong" "trop long"
    ∷ says "tplOverflow" "peut devenir trop long avec ce profil de compteur"
    ∷ says "errMqttHost" "Broker manquant ou trop long."
    ∷ says "errMqttPort" "Le port doit être compris entre 1 et 65535."
    ∷ says "errMqttPeriod" "L’intervalle doit être compris entre 5 et 3600 secondes."
    ∷ says "errMqttLong"
        "L’ID client, l’utilisateur et le mot de passe ne doivent pas dépasser 64 caractères."
    ∷ []
