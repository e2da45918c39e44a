-- ===== src/Sharding/Classifier.antt =====
-- pkg/sharding/classifier.go: the manifest template, as generated.
use shard_controller.Prelude.{String}

abbrev pub classifier_template : String
classifier_template =
    "apiVersion: apps/v1\nkind: Deployment\nmetadata:\n  labels:\n    control-plane: classifier\n  name: classifier-manager-{{.SHARD}}\n  namespace: projectsveltos\nspec:\n  replicas: 1\n  selector:\n    matchLabels:\n      control-plane: classifier\n  strategy:\n    type: Recreate\n  template:\n    metadata:\n      annotations:\n        kubectl.kubernetes.io/default-container: manager\n      labels:\n        control-plane: classifier\n    spec:\n      containers:\n      - args:\n        - --diagnostics-address=:8443\n        - --report-mode=0\n        - --shard-key={{.SHARD}}\n        - --capi-onboard-annotation=\n        - --v=5\n        - --version=v1.17.0\n        - --registry=\n        - --agent-in-mgmt-cluster=false\n        command:\n        - /manager\n        env:\n        - name: TOTAL_MEMORY_LIMIT\n          valueFrom:\n            resourceFieldRef:\n              resource: limits.memory\n        - name: GOMAXPROCS\n          valueFrom:\n            resourceFieldRef:\n              resource: limits.cpu\n        - name: NAMESPACE\n          valueFrom:\n            fieldRef:\n              fieldPath: metadata.namespace\n        image: docker.io/projectsveltos/classifier@sha256:3fddc6c8abfd071c0deae7871d84d632fa31cc2024eac0fe2c32aea162cc4e5f\n        imagePullPolicy: IfNotPresent\n        livenessProbe:\n          failureThreshold: 3\n          httpGet:\n            path: /healthz\n            port: healthz\n            scheme: HTTP\n          initialDelaySeconds: 15\n          periodSeconds: 20\n        name: manager\n        ports:\n        - containerPort: 8443\n          name: metrics\n          protocol: TCP\n        - containerPort: 9440\n          name: healthz\n          protocol: TCP\n        readinessProbe:\n          failureThreshold: 3\n          httpGet:\n            path: /readyz\n            port: healthz\n            scheme: HTTP\n          initialDelaySeconds: 5\n          periodSeconds: 10\n        resources:\n          limits:\n            cpu: 500m\n            memory: 512Mi\n          requests:\n            cpu: 100m\n            memory: 256Mi\n        securityContext:\n          allowPrivilegeEscalation: false\n          capabilities:\n            drop:\n            - ALL\n      initContainers:\n      - command:\n        - /manager\n        env:\n        - name: NAMESPACE\n          valueFrom:\n            fieldRef:\n              fieldPath: metadata.namespace\n        - name: IS_INITIALIZATION\n          value: \"true\"\n        image: docker.io/projectsveltos/classifier@sha256:3fddc6c8abfd071c0deae7871d84d632fa31cc2024eac0fe2c32aea162cc4e5f\n        imagePullPolicy: IfNotPresent\n        name: migrate\n        resources:\n          limits:\n            cpu: 100m\n            memory: 256Mi\n          requests:\n            cpu: 100m\n            memory: 256Mi\n        securityContext:\n          allowPrivilegeEscalation: false\n          capabilities:\n            drop:\n            - ALL\n      securityContext:\n        runAsNonRoot: true\n        seccompProfile:\n          type: RuntimeDefault\n      serviceAccountName: classifier-manager\n      terminationGracePeriodSeconds: 10\n"
